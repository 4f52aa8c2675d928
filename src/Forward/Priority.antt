-- ===== src/Forward/Priority.antt =====
-- The priority of a syslog message.
use serwebs.Prelude.{
  [], ◌∷◌, ltb, ℕ, ◌+◌, ◌*◌, ◌/◌, ◌%◌, ◌<◌, ◌≡◌, refl, String, Bool, true, false, ◌==◌,
  if◌then◌else◌, arith, Bool-cases, inl, inr,
}
use serwebs.Dict.{Dict, get, get_or}
use serwebs.Forward.{facility_map, facility_of, severity_of, is_part, pri}

abbrev all_below : ℕ → Dict ℕ → Bool
all_below b [] = true
all_below b ((k, v) ∷ d) = let rest = all_below b d in if ltb v b then rest else false

get_or-bound : (d : Dict ℕ) (k : String) (v b : ℕ) → all_below b d ≡ true → v < b → get_or k v d < b
unfolding get
get_or-bound [] k v b h l = l
get_or-bound ((j, w) ∷ d) k v b h l = elim (Bool-cases (ltb w b)) [
  | inl f ↦ elim (Bool-cases (j == k)) [
    | inl e ↦ rw (e, get_or, get) (ground (arith, f))
    | inr e ↦ rw (e, get_or, get) (get_or-bound d k v b (ground (arith, h, f)) l)
  ]
  | inr f ↦ ground (arith, h, f)
]

facility_bound : (name : String) → facility_of name < 24
unfolding facility_of
facility_bound name = get_or-bound facility_map name 16 24 refl (ground arith)

severity_bound : (event : String) → severity_of event < 8
unfolding severity_of
severity_bound event = elim (Bool-cases (is_part "fail" event)) [
  | inl e ↦ rw e (ground arith)
  | inr e ↦ rw e (ground arith)
]

decode : (f s : ℕ) → s < 8 → ((f * 8 + s) / 8 ≡ f) × ((f * 8 + s) % 8 ≡ s)
decode f s h = (ground (arith, h), ground (arith, h))

-- Whatever the configuration's facility and the event are, the priority is one that syslog allows,
-- below 192, and a receiver reads back from it the facility and the severity.
pub pri_lem :
    (facility event : String)
    → (pri facility event < 192)
      × (pri facility event / 8 ≡ facility_of facility)
      × (pri facility event % 8 ≡ severity_of event)
unfolding pri
pri_lem facility event =
    let (f, s) = decode (facility_of facility) (severity_of event) (severity_bound event) in
    (ground (arith, facility_bound facility, severity_bound event), f, s)
