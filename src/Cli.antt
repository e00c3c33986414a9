-- ===== src/Cli.antt =====
-- The command line client, cmd/k-cli: what each command asks of a node and what it reports. `http`
-- is a call of net/http at an address, no reply when it fails. Texts are ASCII.
use kairos_p2p_engine.Base.{
  ℕ, ◌-◌, Bool, true, false, ◌||◌, ◌&&◌, Option, none, some, List, [], ◌∷◌, ◌++◌, Bytes, codes,
  nat_eq, leb, length, if◌then◌else◌,
}
use kairos_p2p_engine.Base.{drop_last}
use kairos_p2p_engine.Process.{Method, method_get, method_post, method_delete, status_ok}
pub mod Sscanf
pub mod FileName
pub mod Answers
use kairos_p2p_engine.Cli.Sscanf.{scan_file_name}

-- A reply with its header Content-Disposition, empty when it is missing; `whole` says whether the
-- body can be read to its end, and `body` is what can be read.
pub record Reply : Type 0 where
  pub status : ℕ
  pub disposition : Bytes
  pub body : Bytes
  pub whole : Bool

-- The form that `put` sends.
pub record Upload : Type 0 where
  pub file_name : Bytes
  pub contents : Bytes
  pub release_time : Bytes

-- What a command ends with: the line that it prints last, and for `get` the file that it leaves.
pub data Outcome : Type 0 where
  open_failed copy_failed bad_request call_failed panicked : Outcome
  uploaded : (body : Bytes) → Outcome
  create_failed : (path : Bytes) → Outcome
  save_failed saved : (path contents : Bytes) → Outcome
  deleted : Outcome
  refused : (status : ℕ) (body : Bytes) → Outcome

-- config.NodeURL
abbrev pub node_url : Bytes
node_url = codes "http://127.0.0.1:8085"

-- `filepath.Base` on a slash-separated path.
abbrev is_slash : ℕ → Bool
is_slash c = nat_eq c b'/'

abbrev trim_slashes : Bytes → Bytes
trim_slashes [] = []
trim_slashes (c ∷ path) =
    let rest = trim_slashes path in if is_slash c && nat_eq (length rest) 0 then [] else c ∷ rest

abbrev has_slash : Bytes → Bool
has_slash [] = false
has_slash (c ∷ path) = is_slash c || has_slash path

abbrev last_part : Bytes → Bytes
last_part [] = []
last_part (c ∷ path) = let rest = last_part path in if has_slash (c ∷ path) then rest else c ∷ path

unfoldable pub base : Bytes → Bytes
base [] = codes "."
base (c ∷ path) =
    let trimmed = trim_slashes (c ∷ path) in
    if nat_eq (length trimmed) 0 then codes "/" else last_part trimmed

-- `filename[:len(filename)-1]`, which panics on an empty text.
abbrev pub without_last : Bytes → Option Bytes
without_last [] = none
without_last (c ∷ text) = some (drop_last (c ∷ text))

abbrev pub or_else : Option Bytes → Bytes → Bytes
or_else none default = default
or_else (some text) default = text

-- The name of the file that `get` creates.
unfoldable pub file_name : Bytes → Bytes → Option Bytes
file_name file_id disposition =
    let default = codes "downloaded_" ++ file_id in
    elim disposition [
      | [] ↦ some default
      | c ∷ text ↦ without_last (or_else (scan_file_name (c ∷ text)) default)
    ]

-- The file that `get` creates and fills with the body of a reply; `creates` says whether a file
-- can be created at a path and written.
unfoldable pub save_body : (Bytes → Bool) → Bytes → Bytes → Reply → Outcome
save_body creates output_dir file_id reply = elim (file_name file_id reply.disposition) [
  | none ↦ panicked
  | some name ↦
      let path = output_dir ++ (b'/' ∷ name) in
      if creates path
      then if reply.whole then saved path reply.body else save_failed path reply.body
      else create_failed path
]

module _ {W : Type 0} where
  -- `k-cli put`; `opened` is what reading the file gives, whole or not.
  unfoldable pub put :
      (W → Bytes → Upload → W × Option Reply)
      → Option (Bytes × Bool)
      → Bytes
      → Bytes
      → W
      → W × Outcome
  put http opened file_path release_time w = elim opened [
    | none ↦ (w, open_failed)
    | some (contents, read) ↦
        let form : Upload = record {
          file_name = base file_path;
          contents = contents;
          release_time = release_time;
        } in
        let (w', answer) = http w (node_url ++ codes "/put") form in
        if read
        then (
          w',
          elim answer [
            | none ↦ call_failed
            | some reply ↦
                if nat_eq reply.status status_ok
                then uploaded reply.body
                else refused reply.status reply.body
          ],
        )
        else (w, copy_failed)
  ]

  -- `k-cli get`
  unfoldable pub get :
      (W → Bytes → W × Option Reply) → (Bytes → Bool) → Bytes → Bytes → W → W × Outcome
  get http creates output_dir file_id w =
      let (w', answer) = http w (node_url ++ (codes "/get?id=" ++ file_id)) in
      (
        w',
        elim answer [
          | none ↦ call_failed
          | some reply ↦
              if nat_eq reply.status status_ok
              then save_body creates output_dir file_id reply
              else refused reply.status reply.body
        ],
      )

  -- `k-cli delete`; `parses` says whether the address is one.
  unfoldable pub delete : (W → Bytes → W × Option Reply) → (Bytes → Bool) → Bytes → W → W × Outcome
  delete http parses file_id w =
      let url = node_url ++ (codes "/delete?id=" ++ file_id) in
      let (w', answer) = http w url in
      if parses url
      then (
        w',
        elim answer [
          | none ↦ call_failed
          | some reply ↦ if nat_eq reply.status status_ok then deleted else refused reply.status []
        ],
      )
      else (w, bad_request)
