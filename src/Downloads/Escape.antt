-- ===== src/Downloads/Escape.antt =====
-- Which files are given out for ".." as the name of a port.
use serwebs.Prelude.{◌≡◌, ◌∙◌, refl, ap, String, true, [], ◌∷◌, ◌++◌, append_assoc}
use serwebs.Roles.{User}
use serwebs.Downloads.{
  Parts, FileSystem, parts, is_absolute, join, parent, resolve_from, resolve, same, get_log_file,
  serves, download_session_log, pieces, kept,
}
use serwebs.Downloads.Leading.{
  IsName, same_refl, resolve_from-append, parent-snoc, resolve-step, join-name,
}

-- The path that ".." as a port and a name come to.
up_path :
    (data_dir : Parts) (name : String)
    → IsName name
    → join (join (data_dir ++ "logs" ∷ []) "..") name
      ≡ (data_dir ++ "logs" ∷ ".." ∷ []) ++ name ∷ []
unfolding join
up_path data_dir name is_name =
    join-name (join (data_dir ++ "logs" ∷ []) "..") name is_name
    ∙ ap (λ r. r ++ name ∷ [])
        ((let p : join (data_dir ++ "logs" ∷ []) ".." ≡ (data_dir ++ "logs" ∷ []) ++ ".." ∷ [] =
              unfold parts is_absolute pieces kept in refl in
            p)
          ∙ append_assoc data_dir ("logs" ∷ []) (".." ∷ []))

up_leads :
    (data_dir : Parts) (name : String)
    → IsName name
    → resolve data_dir ≡ data_dir
    → resolve ((data_dir ++ "logs" ∷ ".." ∷ []) ++ name ∷ []) ≡ data_dir ++ name ∷ []
up_leads data_dir name is_name clean =
    resolve-step (data_dir ++ "logs" ∷ ".." ∷ []) name
    ∙ rw is_name.2 (
        ap (λ r. r ++ name ∷ [])
          (resolve_from-append data_dir ("logs" ∷ ".." ∷ []) []
            ∙ ap (λ r. resolve_from r ("logs" ∷ ".." ∷ [])) clean
            ∙ (let p : resolve_from data_dir ("logs" ∷ ".." ∷ [])
                    ≡ parent (data_dir ++ "logs" ∷ []) =
                  unfold resolve_from in refl in
                p)
            ∙ parent-snoc data_dir "logs"))

-- But where the name is "..", which a request can give as %2e%2e, any user who is logged in gets any
-- file of the data directory that holds the directory of the logs, for example users.json with its
-- password hashes.
pub download_escapes :
    (fs : FileSystem) (data_dir : Parts) (name : String) (user : User)
    → IsName name
    → resolve data_dir ≡ data_dir
    → fs.is_file (data_dir ++ name ∷ []) ≡ true
    → download_session_log fs (data_dir ++ "logs" ∷ []) ".." name user
      ≡ serves (data_dir ++ name ∷ [])
unfolding download_session_log get_log_file
download_escapes fs data_dir name user is_name clean there =
    let dir : Parts = join (data_dir ++ "logs" ∷ []) ".." in
    let p : Parts = join dir name in
    let to : resolve p ≡ data_dir ++ name ∷ [] =
      ap resolve (up_path data_dir name is_name) ∙ up_leads data_dir name is_name clean in
    let here : fs.is_file (resolve p) ≡ true = ap fs.is_file to ∙ there in
    let guard : same (parent p) dir ≡ true =
      ap (λ r. same (parent r) dir) (join-name dir name is_name)
      ∙ ap (λ r. same r dir) (parent-snoc dir name)
      ∙ same_refl dir in
    rw (here, guard) (ap serves to)
