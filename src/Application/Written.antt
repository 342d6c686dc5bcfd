-- ===== src/Application/Written.antt =====
-- The files that `run` of the application writes: the number of its process, and the settings.
use qt_sss_shttps.Common.{
  ℕ, ◌≡◌, ◌≢◌, refl, ap, ◌∙◌, sym, subst, ◌&&◌, not, Bool, true, false, Option, none, some,
  if◌then◌else◌, if-both, arith,
}
use qt_sss_shttps.Text.{Text, text_eq}
use qt_sss_shttps.Text.Laws.{text_eq_iff, text_eq_self}
use qt_sss_shttps.Text.Decimal.{decimal, read_digits, read_digits-decimal}
use qt_sss_shttps.Hash.{Hash, lookup, lookup-insert}
use qt_sss_shttps.Settings.{Variant, variant_text, AppSettings, pid_path_file, get}
use qt_sss_shttps.Settings.Folders.{File, Disk}
use qt_sss_shttps.Application.{Machine, write_file, write_pid, settings_path, sync_file}

-- The number of a process that a file holds.
unfoldable pub pid_in : Option File → Option ℕ
pid_in none = none
pid_in (some f) = some (read_digits 0 f.content)

unfoldable pub content_in : Option File → Option Text
content_in none = none
content_in (some f) = some f.content

-- What the settings file is to hold, where it can be opened and is not that of the process number.
unfoldable pub is_kept_apart : Machine → AppSettings → (pid_path : Text) → Bool
is_kept_apart x s pid_path = x.opens (settings_path s) && not (text_eq pid_path (settings_path s))

pub write_file-other :
    (path content other : Text) (d : Disk) (f : File)
    → path ≢ other
    → lookup other d.files ≡ some f
    → lookup other (write_file path content d).files ≡ some f
unfolding write_file
write_file-other path content other d f n e =
    lookup-insert path other _ d.files ∙ ground (arith, text_eq_iff path other, n, e)

write_file-pid :
    (path : Text) (n : ℕ) (d : Disk)
    → pid_in (lookup path (write_file path (decimal n) d).files) ≡ some n
unfolding write_file pid_in
write_file-pid path n d =
    ap pid_in (lookup-insert path path _ d.files)
    ∙ rw (text_eq_self path) (ap some (read_digits-decimal n))

pub write_pid-some :
    (x : Machine) (s : AppSettings) (d : Disk) (v : Variant)
    → get x.surroundings pid_path_file s ≡ some v
    → write_pid x s d
      ≡ some (
          if x.opens (variant_text v)
          then write_file (variant_text v) (decimal x.process_id) d
          else d)
unfolding write_pid
write_pid-some x s d v n = rw (n, write_pid) refl

pub write_file-recorded :
    (b : Bool) (path : Text) (n : ℕ) (d : Disk)
    → (if b
        then pid_in (lookup path (if b then write_file path (decimal n) d else d).files)
        else some n)
      ≡ some n
write_file-recorded true path n d = write_file-pid path n d
write_file-recorded false path n d = refl

sync_file-by :
    (x : Machine) (s : AppSettings) (d : Disk) (h : Hash Variant)
    → s.stored ≡ some h
    → sync_file x s d ≡ (
        if x.opens (settings_path s)
        then write_file (settings_path s) (x.print_settings h) d
        else d)
unfolding sync_file settings_path
sync_file-by x s d h e = rw (e, sync_file) refl

pub sync_file-other :
    (x : Machine) (s : AppSettings) (d : Disk) (h : Hash Variant) (other : Text) (f : File)
    → s.stored ≡ some h
    → settings_path s ≢ other
    → lookup other d.files ≡ some f
    → lookup other (sync_file x s d).files ≡ some f
sync_file-other x s d h other f e n l =
    subst (λ (y : Disk). lookup other y.files ≡ some f) (sym (sync_file-by x s d h e))
      (if-both (λ (y : Disk). lookup other y.files ≡ some f) (x.opens (settings_path s)) _ _
        (write_file-other (settings_path s) (x.print_settings h) other d f n l) l)

write_file-content :
    (path content : Text) (d : Disk)
    → content_in (lookup path (write_file path content d).files) ≡ some content
unfolding write_file content_in
write_file-content path content d =
    ap content_in (lookup-insert path path _ d.files) ∙ rw (text_eq_self path) refl

write_file-content_other :
    (path content other : Text) (d : Disk)
    → text_eq path other ≡ false
    → content_in (lookup other (write_file path content d).files)
      ≡ content_in (lookup other d.files)
unfolding write_file
write_file-content_other path content other d n =
    ap content_in (lookup-insert path other _ d.files) ∙ ground (arith, n)

sync_file-content :
    (x : Machine) (s : AppSettings) (d : Disk) (h : Hash Variant)
    → s.stored ≡ some h
    → x.opens (settings_path s) ≡ true
    → content_in (lookup (settings_path s) (sync_file x s d).files) ≡ some (x.print_settings h)
sync_file-content x s d h e o =
    ap (λ (y : Disk). content_in (lookup (settings_path s) y.files))
      (sync_file-by x s d h e
        ∙ ap (λ (b : Bool). if b then write_file (settings_path s) (x.print_settings h) d else d) o)
    ∙ write_file-content (settings_path s) (x.print_settings h) d

-- The settings file, after the number of the process was written as well.
pub is_kept_apart-synced :
    (x : Machine) (s : AppSettings) (d : Disk) (h : Hash Variant) (pid_path content : Text)
    → s.stored ≡ some h
    → (if is_kept_apart x s pid_path
        then content_in (
            lookup
              (settings_path s)
              (if x.opens pid_path
                then write_file pid_path content (sync_file x s d)
                else sync_file x s d).files)
        else some (x.print_settings h))
      ≡ some (x.print_settings h)
unfolding is_kept_apart
is_kept_apart-synced x s d h pid_path content e = ground (
  arith,
  sync_file-content x s d h e,
  write_file-content_other pid_path content (settings_path s) (sync_file x s d),
)
