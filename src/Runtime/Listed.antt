-- ===== src/Runtime/Listed.antt =====
-- What `parse_server_peer_list` of src/config_runtime.c leaves in the list of peers.
use std.Path.{subst}
use mathlib.Core.Bool.{false≢true}
use mathlib.Core.Option.{none-ne-some, some-injective}
use awg2_webui.Base.{
  or_false, ℕ, ◌≤◌, ◌<◌, ◌≡◌, refl, ap, sym, ◌∙◌, Bool, true, false, ◌&&◌, ◌||◌, Option, some, none,
  List, [], ◌∷◌, ◌++◌, leb, ◌==◌, if_true, if_false, length, length-append, All-append, ==_self,
  eq_of_==-true, bytes_eq, arith, All, Bool-cases, inl, inr,
}
use awg2_webui.Base64.{base64_decode}
use awg2_webui.Runtime.Peers.{
  max_server_peers, is_pub_sep, words, is_peer, add_server_peer_pub_unique, key_of, add_decoded,
  add_token, add_tokens, parse_server_peer_list,
}

-- A list of at most 256 different keys of 32 bytes.
abbrev pub Fresh : List (List ℕ) → Type 0
Fresh [] = Unit
Fresh (k ∷ keys) = (is_peer keys k ≡ false) × Fresh keys

abbrev IsKey : List ℕ → Type 0
IsKey key = length key ≡ 32

pub record IsPeers (keys : List (List ℕ)) : Type 0 where
  pub different : Fresh keys
  pub keys_of_32 : All IsKey keys
  pub fit : length keys ≤ max_server_peers

==-sym : (x y : ℕ) → (x == y) ≡ (y == x)
==-sym x y = ground arith

bytes_eq-sym : (x y : List ℕ) → bytes_eq x y ≡ bytes_eq y x
bytes_eq-sym [] [] = refl
bytes_eq-sym [] (y ∷ ys) = refl
bytes_eq-sym (x ∷ xs) [] = refl
bytes_eq-sym (x ∷ xs) (y ∷ ys) =
    ap (λ b. b && bytes_eq xs ys) (==-sym x y) ∙ ap (λ b. (y == x) && b) (bytes_eq-sym xs ys)

bytes_eq_refl : (x : List ℕ) → bytes_eq x x ≡ true
bytes_eq_refl [] = refl
bytes_eq_refl (x ∷ xs) = ap (λ b. b && bytes_eq xs xs) (==_self x) ∙ bytes_eq_refl xs

or_true_right : (a b : Bool) → b ≡ true → (a || b) ≡ true
or_true_right true b h = refl
or_true_right false b h = h

is_peer-snoc :
    (keys : List (List ℕ)) (key other : List ℕ)
    → is_peer keys other ≡ false
    → bytes_eq key other ≡ false
    → is_peer (keys ++ (key ∷ [])) other ≡ false
unfolding is_peer
is_peer-snoc [] key other h e = ap (λ b. b || false) e
is_peer-snoc (k ∷ keys) key other h e =
    let (first, rest) = or_false (bytes_eq k other) (is_peer keys other) h in
    ap (λ b. b || is_peer (keys ++ (key ∷ [])) other) first ∙ is_peer-snoc keys key other rest e

Fresh-snoc :
    (keys : List (List ℕ)) (key : List ℕ)
    → Fresh keys
    → is_peer keys key ≡ false
    → Fresh (keys ++ (key ∷ []))
unfolding is_peer
Fresh-snoc [] key h e = (refl, tt)
Fresh-snoc (k ∷ keys) key h e =
    let (first, rest) = or_false (bytes_eq k key) (is_peer keys key) e in
    (is_peer-snoc keys key k h.0 (bytes_eq-sym key k ∙ first), Fresh-snoc keys key h.1 rest)

-- Each key stays, and the new one is there.
is_peer-left :
    (keys more : List (List ℕ)) (key : List ℕ)
    → is_peer keys key ≡ true
    → is_peer (keys ++ more) key ≡ true
unfolding is_peer
is_peer-left [] more key h = absurd (false≢true h)
is_peer-left (k ∷ keys) more key h = elim (Bool-cases (bytes_eq k key)) [
  | inl e ↦ ap (λ b. b || is_peer (keys ++ more) key) e
  | inr e ↦
      or_true_right (bytes_eq k key) _
        (is_peer-left keys more key (sym (ap (λ b. b || is_peer keys key) e) ∙ h))
]

is_peer-last : (keys : List (List ℕ)) (key : List ℕ) → is_peer (keys ++ (key ∷ [])) key ≡ true
unfolding is_peer
is_peer-last [] key = ap (λ b. b || false) (bytes_eq_refl key)
is_peer-last (k ∷ keys) key = or_true_right (bytes_eq k key) _ (is_peer-last keys key)

-- What one key adds: nothing, or itself at the end of a list with room.
data Added (keys : List (List ℕ)) (key : List ℕ) : List (List ℕ) → Type 0 where
  known : is_peer keys key ≡ true → Added keys key keys
  appended :
      is_peer keys key ≡ false
      → length keys < max_server_peers
      → Added keys key (keys ++ (key ∷ []))

add-Added :
    (keys : List (List ℕ)) (key : List ℕ) (more : List (List ℕ))
    → add_server_peer_pub_unique keys key ≡ some more
    → Added keys key more
unfolding add_server_peer_pub_unique
add-Added keys key more e = elim (Bool-cases (is_peer keys key)) [
  | inl old ↦
      subst (Added keys key) (some-injective keys more (sym (if_true _ old _ _) ∙ e)) (known old)
  | inr new ↦ elim (Bool-cases (leb max_server_peers (length keys))) [
    | inl full ↦
        absurd (none-ne-some more (sym (if_true _ full _ _) ∙ sym (if_false _ new _ _) ∙ e))
    | inr room ↦
        subst (Added keys key)
          (some-injective _ more (sym (if_false _ room _ _) ∙ sym (if_false _ new _ _) ∙ e))
          (appended new (ground arith))
  ]
]

Added-IsPeers :
    (keys : List (List ℕ)) (key : List ℕ) (more : List (List ℕ))
    → IsPeers keys
    → IsKey key
    → Added keys key more
    → IsPeers more
Added-IsPeers keys key _ ok size (known old) = ok
Added-IsPeers keys key _ ok size (appended new room) = record {
  different = Fresh-snoc keys key ok.different new;
  keys_of_32 = All-append IsKey keys (key ∷ []) ok.keys_of_32 (size, tt);
  fit = omega (arith, length-append keys (key ∷ []), room);
}

Added-keeps :
    (keys : List (List ℕ)) (key : List ℕ) (more : List (List ℕ)) (k : List ℕ)
    → Added keys key more
    → is_peer keys k ≡ true
    → is_peer more k ≡ true
Added-keeps keys key _ k (known old) h = h
Added-keeps keys key _ k (appended new room) h = is_peer-left keys (key ∷ []) k h

Added-has :
    (keys : List (List ℕ)) (key : List ℕ) (more : List (List ℕ))
    → Added keys key more
    → is_peer more key ≡ true
Added-has keys key _ (known old) = old
Added-has keys key _ (appended new room) = is_peer-last keys key

-- The token is 32 bytes in base 64, and they are one of the keys.
abbrev pub IsListed : List (List ℕ) → List ℕ → Type 0
IsListed keys token =
    (key : List ℕ) × (base64_decode token 32 ≡ some key) × (is_peer keys key ≡ true)

-- What one token adds.
abbrev Step : List (List ℕ) → List ℕ → List (List ℕ) → Type 0
Step keys token more =
    (key : List ℕ) × (base64_decode token 32 ≡ some key) × (IsKey key) × (Added keys key more)

step_of_IsKey :
    (keys : List (List ℕ)) (d : Option (List ℕ)) (more : List (List ℕ))
    → add_decoded keys (key_of d) ≡ some more
    → (key : List ℕ) × (d ≡ some key) × (IsKey key) × (Added keys key more)
unfolding add_decoded key_of
step_of_IsKey keys none more e = absurd (none-ne-some more e)
step_of_IsKey keys (some key) more e = elim (Bool-cases (length key == 32)) [
  | inl size ↦ (
    key,
    refl,
    eq_of_==-true (length key) 32 size,
    add-Added keys key more (sym (ap (add_decoded keys) (if_true _ size _ _)) ∙ e),
  )
  | inr other ↦ absurd (none-ne-some more (sym (ap (add_decoded keys) (if_false _ other _ _)) ∙ e))
]

add_token-Step :
    (keys : List (List ℕ)) (token : List ℕ) (more : List (List ℕ))
    → add_token keys token ≡ some more
    → Step keys token more
unfolding add_token
add_token-Step keys token more e = elim (Bool-cases (leb 128 (length token))) [
  | inl long ↦ absurd (none-ne-some more (sym (if_true _ long _ _) ∙ e))
  | inr short ↦ step_of_IsKey keys (base64_decode token 32) more (sym (if_false _ short _ _) ∙ e)
]

-- The first token of a list that is accepted is accepted, and so is the rest after it.
first_token :
    (keys : List (List ℕ)) (token : List ℕ) (tokens keys' : List (List ℕ))
    → add_tokens keys (token ∷ tokens) ≡ some keys'
    → (more : List (List ℕ)) × (add_token keys token ≡ some more)
      × (add_tokens more tokens ≡ some keys')
unfolding add_tokens
first_token keys token tokens keys' e = split (add_token keys token) refl e
  where
    split :
        (x : Option (List (List ℕ)))
        → add_token keys token ≡ x
        → (elim x [ none ↦ none | some more ↦ add_tokens more tokens ]) ≡ some keys'
        → (more : List (List ℕ)) × (add_token keys token ≡ some more)
          × (add_tokens more tokens ≡ some keys')
    split none h e = absurd (none-ne-some keys' e)
    split (some more) h e = (more, h, e)

add_tokens-IsPeers :
    (keys tokens keys' : List (List ℕ))
    → IsPeers keys
    → add_tokens keys tokens ≡ some keys'
    → IsPeers keys'
add_tokens-IsPeers keys [] keys' ok e =
    subst IsPeers (some-injective keys keys' (unfold add_tokens in e)) ok
add_tokens-IsPeers keys (token ∷ tokens) keys' ok e =
    let (more, first, rest) = first_token keys token tokens keys' e in
    let (key, decoded, size, added) = add_token-Step keys token more first in
    add_tokens-IsPeers more tokens keys' (Added-IsPeers keys key more ok size added) rest

add_tokens-keeps :
    (keys tokens keys' : List (List ℕ)) (k : List ℕ)
    → add_tokens keys tokens ≡ some keys'
    → is_peer keys k ≡ true
    → is_peer keys' k ≡ true
add_tokens-keeps keys [] keys' k e h =
    subst (λ l. is_peer l k ≡ true) (some-injective keys keys' (unfold add_tokens in e)) h
add_tokens-keeps keys (token ∷ tokens) keys' k e h =
    let (more, first, rest) = first_token keys token tokens keys' e in
    let (key, decoded, size, added) = add_token-Step keys token more first in
    add_tokens-keeps more tokens keys' k rest (Added-keeps keys key more k added h)

add_tokens-IsListed :
    (keys tokens keys' : List (List ℕ))
    → add_tokens keys tokens ≡ some keys'
    → All (IsListed keys') tokens
add_tokens-IsListed keys [] keys' e = tt
add_tokens-IsListed keys (token ∷ tokens) keys' e =
    let (more, first, rest) = first_token keys token tokens keys' e in
    let (key, decoded, size, added) = add_token-Step keys token more first in
    (
      (key, decoded, add_tokens-keeps more tokens keys' key rest (Added-has keys key more added)),
      add_tokens-IsListed more tokens keys' rest,
    )

-- A list of peers that is accepted leaves at most 256 different keys of 32 bytes, and every token of it,
-- repeated or not, is the base 64 of one of them.
pub parse_server_peer_list-IsPeers :
    (keys : List (List ℕ)) (value : List ℕ) (keys' : List (List ℕ))
    → IsPeers keys
    → parse_server_peer_list keys value ≡ some keys'
    → IsPeers keys' × All (IsListed keys') (words is_pub_sep value)
unfolding parse_server_peer_list
parse_server_peer_list-IsPeers keys value keys' ok e = (
  add_tokens-IsPeers keys (words is_pub_sep value) keys' ok e,
  add_tokens-IsListed keys (words is_pub_sep value) keys' e,
)
