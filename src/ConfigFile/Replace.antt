-- ===== src/ConfigFile/Replace.antt =====
-- internal/api/handlers.go: the configuration file is replaced as a whole or not at all.
use whatsupp.Base.{
  ◌≡◌, refl, sym, ◌∙◌, String, Bool, true, false, some, arith, str_eq, eq_iff, if◌then◌else◌, take,
  Map, Bool-cases, Option-cases, inl, inr,
}
use Prim.Native.String.{◌++◌ as append}
use text.Mathlib.TextLemmas.{append-nil, append_cancel_left}
use whatsupp.Config.{Loaded, ok, err}
use whatsupp.Hub.{Hub}
use whatsupp.Hub.Reload.{reload_config}
use whatsupp.ConfigFile.{
  Bytes, Faults, Reply, replaced, replaced_not_reloaded, bad_request, internal_error, is_blank,
  body_limit, tmp_path, write_file, reload, reply_of, put_config,
}

unfoldable pub is_replaced : Reply → Bool
is_replaced replaced = true
is_replaced replaced_not_reloaded = true
is_replaced bad_request = false
is_replaced internal_error = false

tmp_path-ne : (path : String) → str_eq (tmp_path path) path ≡ false
unfolding tmp_path
tmp_path-ne path = elim (Bool-cases (str_eq (append path ".tmp") path)) [
  | inl same ↦
      let longer : append path ".tmp" ≡ append path "" =
        (eq_iff (append path ".tmp") path).0 same ∙ sym (append-nil path) in
      absurd (ground (arith, (eq_iff ".tmp" "").1 (append_cancel_left path ".tmp" "" longer)))
  | inr other ↦ other
]

write_file_lem :
    (f : Faults) (path other : String) (content : Bytes) (files : Map Bytes)
    → str_eq path other ≡ false
    → str_eq (tmp_path path) other ≡ false
    → let (done, files') = write_file f path content files in
      (files' path ≡ (if done then some content else files path)) × (files' other ≡ files other)
unfolding write_file
write_file_lem f path other content files apart apart' =
    let tmp = tmp_path-ne path in
    let same = (eq_iff path path).1 refl in
    elim (Option-cases f.write) [
      | inr (part, failed) ↦ rw (failed, write_file) (rw tmp refl, rw apart' refl)
      | inl fine ↦ elim (Bool-cases f.rename) [
        | inr moved ↦ rw (fine, moved, write_file) (rw (tmp, same) refl, rw (apart', apart) refl)
        | inl failed ↦ elim (Bool-cases f.remove) [
          | inl left ↦ rw (fine, failed, left, write_file) (rw tmp refl, rw apart' refl)
          | inr removed ↦ rw (fine, failed, removed, write_file) (rw tmp refl, rw apart' refl)
        ]
      ]
    ]

reply_of-is_replaced : (l : Loaded) → is_replaced (reply_of l) ≡ true
unfolding reply_of is_replaced
reply_of-is_replaced (ok cfg) = refl
reply_of-is_replaced (err e) = refl

-- The file at the path is as before, unless the reply says that it is replaced: then it is the body as
-- a whole, up to its first 1048576 bytes, and the hub is what a reload of that content makes of it.
-- Files other than it and the temporary one are as before, whatever fails.
pub put_config_lem :
    (parse : Bytes → Loaded) (f : Faults) (path other : String) (body : Bytes) (files : Map Bytes)
    (h : Hub)
    → str_eq path other ≡ false
    → str_eq (tmp_path path) other ≡ false
    → let (reply, (files', h')) = put_config parse f path (some body) (files, h) in
      (files' path ≡ (if is_replaced reply then some (take body_limit body) else files path))
      × (h' ≡ (if is_replaced reply then reload_config (parse (take body_limit body)) h else h))
      × (files' other ≡ files other)
unfolding put_config reload is_replaced
put_config_lem parse f path other body files h apart apart' =
    let content = take body_limit body in
    let written = write_file_lem f path other content files apart apart' in
    let told = reply_of-is_replaced (parse content) in
    elim (Bool-cases (is_blank content)) [
      | inl blank ↦ rw (blank, put_config) (refl, refl, refl)
      | inr text ↦ elim (Bool-cases (write_file f path content files).0) [
        | inl done ↦
            rw (text, done, put_config) (rw (told, written.0, done) refl, rw told refl, written.1)
        | inr failed ↦ rw (text, failed, put_config) (rw (written.0, failed) refl, refl, written.1)
      ]
    ]
