-- ===== src/Cps/Tests.antt =====
-- Tests of the packet templates and of their theorems.
use awg2_webui.Base.{ℕ, ◌≤◌, ◌<◌, ◌≡◌, refl, some, none, List, [], ◌∷◌, length, codes}
use awg2_webui.Cps.{Template, static_bytes, random, random_digits, timestamp, counter, cps_max_size}
use awg2_webui.Cps.Parse.{cps_parse}
use awg2_webui.Cps.Sound.{IsTemplate, cps_parse-IsTemplate}

abbrev text : List ℕ
text = codes "<b 0xc0fF> <r 3><rd 2><t><c>"

abbrev template : Template
template = record {
  segs = static_bytes 0 2 ∷ random 3 ∷ random_digits 2 ∷ timestamp ∷ counter ∷ [];
  static_data = 192 ∷ 255 ∷ [];
}

parses_text : cps_parse text ≡ some template
unfolding cps_parse
parses_text = refl

refuses_empty : cps_parse [] ≡ none
unfolding cps_parse
refuses_empty = refl

refuses_unclosed : cps_parse (codes "<t><c") ≡ none
unfolding cps_parse
refuses_unclosed = refl

refuses_odd_hex : cps_parse (codes "<b 0xc0f>") ≡ none
unfolding cps_parse
refuses_odd_hex = refl

refuses_large : cps_parse (codes "<r 1501>") ≡ none
unfolding cps_parse
refuses_large = refl

-- A size is cut to 16 bits before it is measured.
large_size_wraps :
    cps_parse (codes "<r 65540>") ≡ some (record { segs = random 4 ∷ []; static_data = [] })
unfolding cps_parse
large_size_wraps = refl

cps_parse-IsTemplate_example :
    IsTemplate template × (0 < length template.segs) × (cps_max_size template ≤ 1500)
cps_parse-IsTemplate_example = cps_parse-IsTemplate text template parses_text
