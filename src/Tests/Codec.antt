-- ===== src/Tests/Codec.antt =====
-- A dump of any view as a text, and its validation.
use Prim.Native.Char.{Char, code}
use Prim.Native.String.{count}
use Prim.Native.String.count
use text.Mathlib.TextLemmas.{tail-eq_of_cons-eq, head-eq_of_cons-eq}
use text.Mathlib.TextBridge.{to_list, of_list, to_list-of_list}
use native.Mathlib.Omega.{arith}
use ara_nes_lms_core.Base.{
  ℕ, zero, suc, String, Bool, true, false, Option, none, some, List, [], ◌∷◌, length, nat_beq,
  if◌then◌else◌, ◌≡◌, ◌≢◌, refl, sym, ap, ◌∙◌,
}
use ara_nes_lms_core.Endpoints.World.{RoleView, UserView, Model}

abbrev bind : {A B : Type 0} → Option A → (A → Option B) → Option B
bind none f = none
bind (some a) f = f a

-- Writing a value in front of a text, and reading it off again.
record Codec (A : Type 0) : Type 0 where
  put : A → List Char → List Char
  get : List Char → Option (A × List Char)
  get-put : (a : A) (rest : List Char) → get (put a rest) ≡ some (a, rest)

abbrev stop : Char
stop = "0"

abbrev go : Char
go = "1"

abbrev is_stop : Char → Bool
is_stop c = nat_beq (code c) 48

unfoldable put_nat : ℕ → List Char → List Char
put_nat zero rest = stop ∷ rest
put_nat (suc n) rest = go ∷ put_nat n rest

unfoldable get_nat : List Char → Option (ℕ × List Char)
get_nat [] = none
get_nat (c ∷ rest) =
    let later = get_nat rest in
    if is_stop c then some (0, rest) else bind later (λ p. some (suc p.0, p.1))

get_nat-put_nat : (n : ℕ) (rest : List Char) → get_nat (put_nat n rest) ≡ some (n, rest)
unfolding get_nat put_nat
get_nat-put_nat zero rest = refl
get_nat-put_nat (suc n) rest = ap (λ o. bind o (λ p. some (suc p.0, p.1))) (get_nat-put_nat n rest)

abbrev nat_codec : Codec ℕ
nat_codec = record { put = put_nat; get = get_nat; get-put = get_nat-put_nat }

unfoldable put_string : String → List Char → List Char
put_string String.[] rest = stop ∷ rest
put_string (String.◌∷◌ c s) rest = go ∷ c ∷ put_string s rest

unfoldable get_string : List Char → Option (String × List Char)
get_string [] = none
get_string (m ∷ []) = if is_stop m then some ("", []) else none
get_string (m ∷ c ∷ rest) =
    let later = get_string rest in
    if is_stop m then some ("", c ∷ rest) else bind later (λ p. some (String.◌∷◌ c p.0, p.1))

get_string-put_string :
    (s : String) (rest : List Char) → get_string (put_string s rest) ≡ some (s, rest)
unfolding get_string put_string
get_string-put_string String.[] [] = refl
get_string-put_string String.[] (c ∷ rest) = refl
get_string-put_string (String.◌∷◌ c s) rest =
    ap (λ o. bind o (λ p. some (String.◌∷◌ c p.0, p.1))) (get_string-put_string s rest)

abbrev string_codec : Codec String
string_codec = record { put = put_string; get = get_string; get-put = get_string-put_string }

unfoldable get_bool : List Char → Option (Bool × List Char)
get_bool [] = none
get_bool (c ∷ rest) = if is_stop c then some (false, rest) else some (true, rest)

abbrev put_bool : Bool → List Char → List Char
put_bool true rest = go ∷ rest
put_bool false rest = stop ∷ rest

get_bool-put_bool : (b : Bool) (rest : List Char) → get_bool (put_bool b rest) ≡ some (b, rest)
unfolding get_bool
get_bool-put_bool true rest = refl
get_bool-put_bool false rest = refl

abbrev bool_codec : Codec Bool
bool_codec = record { put = put_bool; get = get_bool; get-put = get_bool-put_bool }

module _ {A B : Type 0} (a_codec : Codec A) (b_codec : Codec B) where
  abbrev second : A × List Char → Option ((A × B) × List Char)
  second (a, rest) = bind (b_codec.get rest) (λ p. some ((a, p.0), p.1))

  pair_codec : Codec (A × B)
  pair_codec = record {
    put = λ p rest. a_codec.put p.0 (b_codec.put p.1 rest);
    get = λ s. bind (a_codec.get s) second;
    get-put = λ p rest.
        ap (λ o. bind o second) (a_codec.get-put p.0 (b_codec.put p.1 rest))
        ∙ ap (λ o. bind o (λ q. some ((p.0, q.0), q.1))) (b_codec.get-put p.1 rest);
  }

module _ {A : Type 0} (codec : Codec A) where
  put_all : List A → List Char → List Char
  put_all [] rest = rest
  put_all (x ∷ xs) rest = codec.put x (put_all xs rest)

  get_all : ℕ → List Char → Option (List A × List Char)
  get_all zero s = some ([], s)
  get_all (suc n) s = bind (codec.get s) (λ p. bind (get_all n p.1) (λ q. some (p.0 ∷ q.0, q.1)))

  get_all-put_all :
      (xs : List A) (rest : List Char) → get_all (length xs) (put_all xs rest) ≡ some (xs, rest)
  unfolding get_all put_all
  get_all-put_all [] rest = refl
  get_all-put_all (x ∷ xs) rest =
      ap (λ o. bind o (λ p. bind (get_all (length xs) p.1) (λ q. some (p.0 ∷ q.0, q.1))))
        (codec.get-put x (put_all xs rest))
      ∙ ap (λ o. bind o (λ q. some (x ∷ q.0, q.1))) (get_all-put_all xs rest)

  list_codec : Codec (List A)
  list_codec = record {
    put = λ xs rest. put_nat (length xs) (put_all xs rest);
    get = λ s. bind (get_nat s) (λ p. get_all p.0 p.1);
    get-put = λ xs rest.
        ap (λ o. bind o (λ p. get_all p.0 p.1)) (get_nat-put_nat (length xs) (put_all xs rest))
        ∙ get_all-put_all xs rest;
  }

  dump : A → String
  dump a = of_list (codec.put a [])

  validate : String → Option A
  validate s = bind (codec.get (to_list s)) (λ p. some p.0)

  validate-dump : (a : A) → validate (dump a) ≡ some a
  unfolding validate dump
  validate-dump a =
      ap (λ s. bind (codec.get s) (λ p. some p.0)) (to_list-of_list (codec.put a []))
      ∙ ap (λ o. bind o (λ p. some p.0)) (codec.get-put a [])

-- A type of records with the same values.
module _ {A B : Type 0} (to : A → B) (from : B → A) (inverse : (a : A) → from (to a) ≡ a)
    (codec : Codec B) where
  via : Codec A
  via = record {
    put = λ a rest. codec.put (to a) rest;
    get = λ s. bind (codec.get s) (λ p. some (from p.0, p.1));
    get-put = λ a rest.
        ap (λ o. bind o (λ p. some (from p.0, p.1))) (codec.get-put (to a) rest)
        ∙ ap (λ x. some (x, rest)) (inverse a);
  }

permissions_codec : Codec (List (String × Bool))
permissions_codec = list_codec (pair_codec string_codec bool_codec)

role_codec : Codec RoleView
role_codec =
    via (λ v. (v.id, (v.name, (v.title_key, v.permissions))))
      (λ p. record { id = p.0; name = p.1.0; title_key = p.1.1.0; permissions = p.1.1.1 })
      (λ v. refl)
      (pair_codec nat_codec (pair_codec string_codec (pair_codec string_codec permissions_codec)))

user_codec : Codec UserView
user_codec =
    via (λ v. (v.id, (v.username, (v.role_id, v.permissions))))
      (λ p. record { id = p.0; username = p.1.0; role_id = p.1.1.0; permissions = p.1.1.1 })
      (λ v. refl)
      (pair_codec nat_codec (pair_codec string_codec (pair_codec nat_codec permissions_codec)))

abbrev model : {V : Type 0} → Codec V → Model String V
model codec = record {
  validate = validate codec;
  validate_items = validate (list_codec codec);
  dump = dump codec;
  dump_items = dump (list_codec codec);
}

-- A model whose validation reads what it has dumped.
abbrev pub Reading : Type 0 → Type 0
Reading V =
    (m : Model String V) × ((v : V) → m.validate (m.dump v) ≡ some v)
    × ((vs : List V) → m.validate_items (m.dump_items vs) ≡ some vs)

abbrev reading : {V : Type 0} → Codec V → Reading V
reading codec = (model codec, validate-dump codec, validate-dump (list_codec codec))

pub role_model : Reading RoleView
role_model = reading role_codec

pub user_model : Reading UserView
user_model = reading user_codec

-- The print of a key: as many digits "1" as it says, and one more.
abbrev digits : ℕ → String
digits zero = ""
digits (suc n) = String.◌∷◌ go (digits n)

count-digits : (n : ℕ) → count (digits n) ≡ n
count-digits zero = count.nil
count-digits (suc n) = count.cons go (digits n) ∙ ap suc (count-digits n)

abbrev pub str : ℕ → String
str n = String.◌∷◌ go (digits n)

pub str_inj : (i j : ℕ) → str i ≡ str j → i ≡ j
str_inj i j e = sym (count-digits i) ∙ ap count (tail-eq_of_cons-eq e) ∙ count-digits j

pub str-ne-list : (i : ℕ) → str i ≢ "list"
str-ne-list i e =
    let same : code go ≡ code "l" = ap code (head-eq_of_cons-eq e) in omega (arith, same)
