-- ===== src/Downloads/Inside.antt =====
-- Which files are given out for the name of a port.
use serwebs.Prelude.{
  ◌≡◌, ◌∙◌, refl, ap, sym, inl, inr, String, true, false, not, ◌==◌, [], ◌∷◌, ◌++◌, append_assoc,
  arith, Bool-cases, if◌then◌else◌,
}
use serwebs.Text.{concat}
use serwebs.Roles.{User}
use serwebs.Downloads.{
  Parts, FileSystem, join, parent, resolve, same, Found, not_found, invalid, file, get_log_file,
  get_recording_path, Reply, refused, uncaught, serves, replied, download_session_log,
  get_recording,
}
use serwebs.Downloads.Leading.{
  IsName, same_sound, parent-snoc, has_name, snoc≢nil, step, resolve-step, join-name,
  port_dir-resolve,
}

-- The checks that both methods make.
abbrev checked : FileSystem → Parts → Parts → Found
checked fs p dir =
    if not (fs.is_file (resolve p))
    then not_found
    else if not (same (parent p) dir)
    then invalid
    else file p

-- What is served is a file in the directory of the port, under one name.
abbrev pub IsInside : Parts → String → Reply → Type 0
IsInside dir k (refused code) = Unit
IsInside dir k uncaught = Unit
IsInside dir k (serves p) = (name : String) × (p ≡ dir ++ k ∷ name ∷ [])

module _ (fs : FileSystem) (dir : Parts) (k : String) (is_name : IsName k)
    (clean : resolve dir ≡ dir) (is_dir : fs.is_file dir ≡ false) where
  under_name :
      (p : Parts) (y : String)
      → p ≡ join dir k ++ y ∷ []
      → fs.is_file (resolve p) ≡ true
      → resolve p ≡ dir ++ k ∷ y ∷ []
  under_name p y e there =
      let to : resolve p ≡ step (dir ++ k ∷ []) y =
        ap resolve e
        ∙ resolve-step (join dir k) y
        ∙ ap (λ r. step r y) (port_dir-resolve dir k is_name clean) in
      elim (Bool-cases (y == "..")) [
        | inr f ↦ to ∙ rw f (append_assoc dir (k ∷ []) (y ∷ []))
        | inl f ↦
            let up : resolve p ≡ dir = to ∙ rw f (parent-snoc dir k) in
            ground (arith, there, ap fs.is_file up, is_dir)
      ]

  in_port_dir :
      (p : Parts)
      → fs.is_file (resolve p) ≡ true
      → parent p ≡ join dir k
      → (y : String) × (resolve p ≡ dir ++ k ∷ y ∷ [])
  in_port_dir p there e = elim (has_name p) [
    | inl f ↦
        let none_left : dir ++ k ∷ [] ≡ [] =
          sym (join-name dir k is_name)
          ∙ sym e
          ∙ (let q : parent p ≡ [] = unfold parent in rw f refl in q) in
        absurd (snoc≢nil dir k none_left)
    | inr (y, f) ↦ (y, under_name p y (f ∙ ap (λ r. r ++ y ∷ []) e) there)
  ]

  checked-IsInside :
      (p : Parts) (otherwise : Reply)
      → IsInside dir k otherwise
      → IsInside dir k (replied (checked fs p (join dir k)) otherwise)
  checked-IsInside p otherwise h = elim (Bool-cases (fs.is_file (resolve p))) [
    | inr e ↦ rw e tt
    | inl e ↦ elim (Bool-cases (same (parent p) (join dir k))) [
      | inr f ↦ rw (e, f) h
      | inl f ↦ rw (e, f) (in_port_dir p e (same_sound (parent p) (join dir k) f))
    ]
  ]

log_route-IsInside :
    (fs : FileSystem) (dir : Parts) (k name : String) (user : User)
    → IsName k
    → resolve dir ≡ dir
    → fs.is_file dir ≡ false
    → IsInside dir k (download_session_log fs dir k name user)
unfolding download_session_log get_log_file
log_route-IsInside fs dir k name user is_name clean is_dir =
    checked-IsInside fs dir k is_name clean is_dir (join (join dir k) name) (refused 404) tt

recording_route-IsInside :
    (fs : FileSystem) (dir : Parts) (k rec_id : String) (user : User)
    → IsName k
    → resolve dir ≡ dir
    → fs.is_file dir ≡ false
    → IsInside dir k (get_recording fs dir k rec_id user)
unfolding get_recording get_recording_path
recording_route-IsInside fs dir k rec_id user is_name clean is_dir =
    checked-IsInside fs dir k is_name clean is_dir
      (join (join dir k) (concat (rec_id ∷ ".cast" ∷ []))) uncaught tt

-- Where the name of the port is one part of a path and not "..", the routes that give out session
-- logs and recordings serve, whatever name of a file they are asked for, only files that stand directly
-- in the directory of this port.
pub routes-IsInside :
    (fs : FileSystem) (dir : Parts) (k name : String) (user : User)
    → IsName k
    → resolve dir ≡ dir
    → fs.is_file dir ≡ false
    → IsInside dir k (download_session_log fs dir k name user)
      × IsInside dir k (get_recording fs dir k name user)
routes-IsInside fs dir k name user is_name clean is_dir = (
  log_route-IsInside fs dir k name user is_name clean is_dir,
  recording_route-IsInside fs dir k name user is_name clean is_dir,
)
