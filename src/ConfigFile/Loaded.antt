-- ===== src/ConfigFile/Loaded.antt =====
-- What `config_file_parse` of src/config_file.c leaves in its result.
use std.Path.{subst}
use awg2_webui.Base.{
  ℕ, zero, suc, ◌≤◌, ◌<◌, ◌≡◌, refl, sym, Bool, true, false, ◌||◌, Option, some, none, List, [],
  ◌∷◌, leb, ◌==◌, if◌then◌else◌, length, set, ℤ, codes, streqi, split_at, All, Bool-cases, inl, inr,
  eq_of_==-true, if_true, if_false,
}
use awg2_webui.Base64.{base64_decode}
use awg2_webui.Cps.{Template, cps_max_size}
use awg2_webui.Transform.{Hrange}
use awg2_webui.Transform.Ranges.{IsRange}
use awg2_webui.Runtime.{parse_uint32_str, parse_int_strict, one_value, ordered_range}
use awg2_webui.Runtime.Parse.{
  FitsInt, parse_int_strict-FitsInt, parse_uint32_str_lt, ordered_range-IsRange, one_value-IsRange,
}
use awg2_webui.Runtime.Peers.{key_of, max_server_peers}
use awg2_webui.Runtime.Env.{FileParams}
use awg2_webui.Runtime.EnvParse.{AllOf, IsFileLoaded}
use awg2_webui.ConfigFile.{range_parts, parse_hrange, decode_key32, FileConfig, Peer, Parser, newer}
use awg2_webui.ConfigFile.Lines.{changed, interface_param}

-- A key of 32 bytes.
abbrev pub IsKey : List ℕ → Type 0
IsKey key = length key ≡ 32

abbrev pub IsFitting : Option Template → Type 0
IsFitting t = AllOf (λ u. cps_max_size u ≤ 1500) t

-- The result: parameters of the C types with ordered ranges, templates of packets of at most 1500 bytes,
-- at most 256 keys of 32 bytes, and a keepalive that is not 0.
pub record IsFile (f : FileConfig) : Type 0 where
  pub params_loaded : IsFileLoaded f.params
  pub cps_fit : All IsFitting f.cps
  pub server_key : AllOf IsKey f.server_pub
  pub keepalive_on : AllOf (λ n. 0 < n) f.keepalive
  pub peer_keys : All IsKey f.peer_pubs
  pub peers_fit : length f.peer_pubs ≤ max_server_peers

pub record IsPeer (p : Peer) : Type 0 where
  pub key_of_32 : AllOf IsKey p.key
  pub keepalive_on : AllOf (λ n. 0 < n) p.keepalive

abbrev pub IsParser : Parser → Type 0
IsParser s = IsFile s.out × IsPeer s.peer

pub if-AllOf {ℓ} :
    {A : Type ℓ} (P : A → Type 0) (b : Bool) (x y : Option A)
    → AllOf P x
    → AllOf P y
    → AllOf P (if b then x else y)
if-AllOf P true x y h k = h
if-AllOf P false x y h k = k

pub changed-AllOf {ℓ κ} :
    {A : Type ℓ} {B : Type κ} (Q : A → Type 0) (P : B → Type 0) (x : Option A) (f : A → B)
    → AllOf Q x
    → ((a : A) → Q a → P (f a))
    → AllOf P (changed x f)
changed-AllOf Q P none f h k = tt
changed-AllOf Q P (some a) f h k = k a h

pub AllOf-of {ℓ} :
    {A : Type ℓ} (P : A → Type 0) (x : Option A) → ((a : A) → x ≡ some a → P a) → AllOf P x
AllOf-of P none h = tt
AllOf-of P (some a) h = h a refl

pub newer-AllOf {ℓ} :
    {A : Type ℓ} (P : A → Type 0) (x old : Option A)
    → AllOf P x
    → AllOf P old
    → AllOf P (newer x old)
newer-AllOf P none old h k = k
newer-AllOf P (some a) old h k = h

int_fits : (s : List ℕ) → AllOf FitsInt (parse_int_strict s)
int_fits s = AllOf-of FitsInt (parse_int_strict s) (parse_int_strict-FitsInt s)

range_parts-IsRange : (s : List ℕ) (x : Option (List ℕ × List ℕ)) → AllOf IsRange (range_parts s x)
unfolding range_parts
range_parts-IsRange s none =
    AllOf-of IsRange (one_value (parse_uint32_str s))
      (λ r. one_value-IsRange (parse_uint32_str s) r (parse_uint32_str_lt s))
range_parts-IsRange s (some x) =
    if-AllOf IsRange (length x.0 == 0 || leb 32 (length x.0)) none _ tt (
      AllOf-of IsRange (ordered_range (parse_uint32_str x.0) (parse_uint32_str x.1)) (λ r.
        ordered_range-IsRange (parse_uint32_str x.0) (parse_uint32_str x.1) r
          (parse_uint32_str_lt x.1)))

range_fits : (s : List ℕ) → AllOf IsRange (parse_hrange s)
unfolding parse_hrange
range_fits s = range_parts-IsRange s (split_at b'-' s)

key_of-IsKey : (d : Option (List ℕ)) → AllOf IsKey (key_of d)
unfolding key_of
key_of-IsKey none = tt
key_of-IsKey (some key) = elim (Bool-cases (length key == 32)) [
  | inl e ↦ subst (AllOf IsKey) (sym (if_true _ e _ _)) (eq_of_==-true (length key) 32 e)
  | inr e ↦ subst (AllOf IsKey) (sym (if_false _ e _ _)) tt
]

pub decode_key32-IsKey : (val : List ℕ) → AllOf IsKey (decode_key32 val)
unfolding decode_key32
decode_key32-IsKey val = key_of-IsKey (base64_decode val 32)

pub All-set {ℓ κ} :
    {A : Type ℓ} (P : A → Type κ) (xs : List A) (i : ℕ) (v : A)
    → All P xs
    → P v
    → All P (set xs i v)
All-set P [] i v h k = tt
All-set P (x ∷ xs) zero v h k = (k, h.1)
All-set P (x ∷ xs) (suc i) v h k = (h.0, All-set P xs i v h.1 k)

with_params-IsFile :
    (f : FileConfig) (p : FileParams) → IsFile f → IsFileLoaded p → IsFile (record f { params = p })
with_params-IsFile f p ok h = record {
  params_loaded = h;
  cps_fit = ok.cps_fit;
  server_key = ok.server_key;
  keepalive_on = ok.keepalive_on;
  peer_keys = ok.peer_keys;
  peers_fit = ok.peers_fit;
}

module _ (val : List ℕ) (f : FileConfig) (ok : IsFile f) where
  set_int :
      (g : ℤ → FileParams)
      → ((v : ℤ) → FitsInt v → IsFileLoaded (g v))
      → AllOf IsFile (changed (parse_int_strict val) (λ v. record f { params = g v }))
  set_int g h =
      changed-AllOf FitsInt IsFile (parse_int_strict val) _ (int_fits val)
        (λ v k. with_params-IsFile f (g v) ok (h v k))

  set_range :
      (g : Hrange → FileParams)
      → ((r : Hrange) → IsRange r → IsFileLoaded (g r))
      → AllOf IsFile (changed (parse_hrange val) (λ r. record f { params = g r }))
  set_range g h =
      changed-AllOf IsRange IsFile (parse_hrange val) _ (range_fits val)
        (λ r k. with_params-IsFile f (g r) ok (h r k))

  -- Each parameter that is set keeps the others.
  pub interface_param-IsFile : (key : List ℕ) → AllOf IsFile (interface_param key val f)
  unfolding interface_param
  interface_param-IsFile key =
      let p : IsFileLoaded f.params = ok.params_loaded in
      let int : (i : ℕ) (v : ℤ)
          → FitsInt v
          → All (AllOf FitsInt) (
              set
                (f.params.jc ∷ f.params.jmin ∷ f.params.jmax ∷ f.params.s1 ∷ f.params.s2
                  ∷ f.params.s3 ∷ f.params.s4 ∷ [])
                i (some v)) =
        λ i v h.
          All-set (AllOf FitsInt)
            (f.params.jc ∷ f.params.jmin ∷ f.params.jmax ∷ f.params.s1 ∷ f.params.s2 ∷ f.params.s3
              ∷ f.params.s4 ∷ [])
            i (some v) p.ints_fit h in
      let range : (i : ℕ) (r : Hrange)
          → IsRange r
          → All (AllOf IsRange)
              (set (f.params.h1 ∷ f.params.h2 ∷ f.params.h3 ∷ f.params.h4 ∷ []) i (some r)) =
        λ i r h.
          All-set (AllOf IsRange) (f.params.h1 ∷ f.params.h2 ∷ f.params.h3 ∷ f.params.h4 ∷ []) i
            (some r) p.ranges h in
      if-AllOf IsFile (streqi key (codes "Jc")) _ _
        (set_int (λ v. record f.params { jc = some v })
          (λ v h. record { ints_fit = int 0 v h; ranges = p.ranges }))
        (if-AllOf IsFile (streqi key (codes "Jmin")) _ _
          (set_int (λ v. record f.params { jmin = some v })
            (λ v h. record { ints_fit = int 1 v h; ranges = p.ranges }))
          (if-AllOf IsFile (streqi key (codes "Jmax")) _ _
            (set_int (λ v. record f.params { jmax = some v })
              (λ v h. record { ints_fit = int 2 v h; ranges = p.ranges }))
            (if-AllOf IsFile (streqi key (codes "S1")) _ _
              (set_int (λ v. record f.params { s1 = some v })
                (λ v h. record { ints_fit = int 3 v h; ranges = p.ranges }))
              (if-AllOf IsFile (streqi key (codes "S2")) _ _
                (set_int (λ v. record f.params { s2 = some v })
                  (λ v h. record { ints_fit = int 4 v h; ranges = p.ranges }))
                (if-AllOf IsFile (streqi key (codes "S3")) _ _
                  (set_int (λ v. record f.params { s3 = some v })
                    (λ v h. record { ints_fit = int 5 v h; ranges = p.ranges }))
                  (if-AllOf IsFile (streqi key (codes "S4")) _ _
                    (set_int (λ v. record f.params { s4 = some v })
                      (λ v h. record { ints_fit = int 6 v h; ranges = p.ranges }))
                    (if-AllOf IsFile (streqi key (codes "H1")) _ _
                      (set_range (λ r. record f.params { h1 = some r })
                        (λ r h. record { ints_fit = p.ints_fit; ranges = range 0 r h }))
                      (if-AllOf IsFile (streqi key (codes "H2")) _ _
                        (set_range (λ r. record f.params { h2 = some r })
                          (λ r h. record { ints_fit = p.ints_fit; ranges = range 1 r h }))
                        (if-AllOf IsFile (streqi key (codes "H3")) _ _
                          (set_range (λ r. record f.params { h3 = some r })
                            (λ r h. record { ints_fit = p.ints_fit; ranges = range 2 r h }))
                          (if-AllOf IsFile (streqi key (codes "H4")) _ _
                            (set_range (λ r. record f.params { h4 = some r })
                              (λ r h. record { ints_fit = p.ints_fit; ranges = range 3 r h }))
                            ok))))))))))
