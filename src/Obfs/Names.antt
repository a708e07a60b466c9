-- ===== src/Obfs/Names.antt =====
-- `parse_obfs_profile` and `obfs_profile_name` of src/obfs.c.
use mathlib.Core.Path.{fun_ext}
use awg2_webui.Base.{
  ℕ, ◌≡◌, ap, ◌∙◌, refl, Bool, List, [], ◌∷◌, Option, some, none, if◌then◌else◌, streqi, codes,
  fold_case,
}
use awg2_webui.Obfs.{
  Profile, off, stun_ice, dtls_record, rtp_media, source_query, raknet, quic_short, game_enet,
  game_kcp, dns_like,
}

-- The chain of comparisons, for a string given by what `streqi` says of it.
unfoldable pub first_named : (List ℕ → Bool) → Profile
first_named is =
    if is (codes "off")
    then off
    else if is (codes "stun_ice")
    then stun_ice
    else if is (codes "dtls_record")
    then dtls_record
    else if is (codes "rtp_media")
    then rtp_media
    else if is (codes "source_query")
    then source_query
    else if is (codes "raknet")
    then raknet
    else if is (codes "quic_short")
    then quic_short
    else if is (codes "game_enet")
    then game_enet
    else if is (codes "game_kcp")
    then game_kcp
    else if is (codes "dns_like")
    then dns_like
    else off

-- `none` is a null pointer; the empty string is off by the code's first test.
unfoldable pub parse_obfs_profile : Option (List ℕ) → Profile
unfolding first_named
parse_obfs_profile none = off
parse_obfs_profile (some []) = off
parse_obfs_profile (some (c ∷ s)) = first_named (λ name. streqi (c ∷ s) name)

unfoldable pub obfs_profile_name : Profile → List ℕ
obfs_profile_name stun_ice = codes "stun_ice"
obfs_profile_name dtls_record = codes "dtls_record"
obfs_profile_name rtp_media = codes "rtp_media"
obfs_profile_name source_query = codes "source_query"
obfs_profile_name raknet = codes "raknet"
obfs_profile_name quic_short = codes "quic_short"
obfs_profile_name game_enet = codes "game_enet"
obfs_profile_name game_kcp = codes "game_kcp"
obfs_profile_name dns_like = codes "dns_like"
obfs_profile_name off = codes "off"

-- The relation that `streqi` decides: equal up to the case of ASCII letters.
abbrev pub SameFolded : List ℕ → List ℕ → Type 0
SameFolded [] [] = Unit
SameFolded [] (_ ∷ _) = ⊥
SameFolded (_ ∷ _) [] = ⊥
SameFolded (a ∷ s) (b ∷ t) = (fold_case a ≡ fold_case b) × SameFolded s t

streqi_of_SameFolded : (s t u : List ℕ) → SameFolded s t → streqi s u ≡ streqi t u
unfolding streqi
streqi_of_SameFolded [] [] u h = refl
streqi_of_SameFolded [] (b ∷ t) u h = absurd h
streqi_of_SameFolded (a ∷ s) [] u h = absurd h
streqi_of_SameFolded (a ∷ s) (b ∷ t) [] h = refl
streqi_of_SameFolded (a ∷ s) (b ∷ t) (c ∷ u) h = rw (h.0, streqi_of_SameFolded s t u h.1)

parse_of_SameFolded :
    (s t : List ℕ) → SameFolded s t → parse_obfs_profile (some s) ≡ parse_obfs_profile (some t)
unfolding parse_obfs_profile
parse_of_SameFolded [] [] h = refl
parse_of_SameFolded [] (b ∷ t) h = absurd h
parse_of_SameFolded (a ∷ s) [] h = absurd h
parse_of_SameFolded (a ∷ s) (b ∷ t) h =
    ap first_named (fun_ext (λ u. streqi_of_SameFolded (a ∷ s) (b ∷ t) u h))

parse_of_name : (p : Profile) → parse_obfs_profile (some (obfs_profile_name p)) ≡ p
unfolding parse_obfs_profile obfs_profile_name streqi
parse_of_name off = refl
parse_of_name stun_ice = refl
parse_of_name dtls_record = refl
parse_of_name rtp_media = refl
parse_of_name source_query = refl
parse_of_name raknet = refl
parse_of_name quic_short = refl
parse_of_name game_enet = refl
parse_of_name game_kcp = refl
parse_of_name dns_like = refl

-- A profile's name, in any mixture of upper and lower case, is parsed as the profile.
pub parse_obfs_profile-name :
    (p : Profile) (s : List ℕ)
    → SameFolded s (obfs_profile_name p)
    → parse_obfs_profile (some s) ≡ p
parse_obfs_profile-name p s h = parse_of_SameFolded s (obfs_profile_name p) h ∙ parse_of_name p
