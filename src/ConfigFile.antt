-- ===== src/ConfigFile.antt =====
-- internal/api/handlers.go: GetConfig and PutConfig, on the files as lists of bytes and the hub that
-- reloads the file. `parse` is config.Load on the content of a file.
pub mod Replace
use Prim.Native.String.{◌++◌ as append}
use whatsupp.Base.{
  ℕ, String, Bool, true, false, not, ◌&&◌, ◌||◌, List, [], ◌∷◌, Option, none, some, leb, ◌==◌,
  if◌then◌else◌, take, Map, insert, delete,
}
use whatsupp.Config.{Loaded, ok, err}
use whatsupp.Hub.{Hub}
use whatsupp.Hub.Reload.{reload_config}

abbrev pub Bytes : Type 0
Bytes = List ℕ

-- What fails; a failed write leaves a part of the content behind.
pub record Faults : Type 0 where
  pub write : Option Bytes
  pub rename : Bool
  pub remove : Bool

pub data Reply : Type 0 where
  replaced replaced_not_reloaded bad_request internal_error : Reply

abbrev pub is_ascii_space : ℕ → Bool
is_ascii_space c = (leb 9 c && leb c 13) || c == 32

-- The spaces of Unicode that take two and three bytes.
abbrev pub is_space_of_2 : ℕ → ℕ → Bool
is_space_of_2 a b = a == 194 && (b == 133 || b == 160)

abbrev pub is_space_of_3 : ℕ → ℕ → ℕ → Bool
is_space_of_3 a b c =
    (a == 225 && (b == 154 && c == 128))
    || (a == 226 && (b == 128 && ((leb 128 c && leb c 138) || c == 168 || c == 169 || c == 175)))
    || (a == 226 && (b == 129 && c == 159))
    || (a == 227 && (b == 128 && c == 128))

-- Is nothing left of the text by TrimSpace?
unfoldable pub is_blank : Bytes → Bool
is_blank [] = true
is_blank (a ∷ []) = is_ascii_space a
is_blank (a ∷ b ∷ []) =
    let rest = is_blank (b ∷ []) in (is_ascii_space a && rest) || is_space_of_2 a b
is_blank (a ∷ b ∷ c ∷ s) =
    let after_1 = is_blank (b ∷ c ∷ s) in
    let after_2 = is_blank (c ∷ s) in
    let after_3 = is_blank s in
    (is_ascii_space a && after_1)
    || (is_space_of_2 a b && after_2)
    || (is_space_of_3 a b c && after_3)

-- 1 << 20: the reader ends there without an error.
abbrev pub body_limit : ℕ
body_limit = 1_048_576

unfoldable pub tmp_path : String → String
tmp_path path = append path ".tmp"

unfoldable pub get_config : String → Map Bytes → Option Bytes
get_config path files = files path

-- WriteFile and Rename: none if the file is not replaced.
unfoldable pub write_file : Faults → String → Bytes → Map Bytes → Bool × Map Bytes
unfolding tmp_path
write_file f path content files = elim f.write [
  | some part ↦ (false, insert files (tmp_path path) part)
  | none ↦
      let written = insert files (tmp_path path) content in
      if f.rename
      then (false, if f.remove then written else delete written (tmp_path path))
      else (true, delete (insert written path content) (tmp_path path))
]

unfoldable pub reply_of : Loaded → Reply
reply_of (ok cfg) = replaced
reply_of (err e) = replaced_not_reloaded

module _ (parse : Bytes → Loaded) where
  -- The error of a reload is in its answer only.
  unfoldable pub reload : Bytes → Hub → Reply × Hub
  unfolding reload_config reply_of
  reload content h = (reply_of (parse content), reload_config (parse content) h)

  -- The body is none if it cannot be read.
  unfoldable pub put_config :
      Faults → String → Option Bytes → Map Bytes × Hub → Reply × (Map Bytes × Hub)
  unfolding write_file reload is_blank
  put_config f path none (files, h) = (bad_request, (files, h))
  put_config f path (some body) (files, h) =
      let content = take body_limit body in
      if is_blank content
      then (bad_request, (files, h))
      else let (done, files') = write_file f path content files in
        if done
        then (let (reply, h') = reload content h in (reply, (files', h')))
        else (internal_error, (files', h))
