-- ===== src/Tests/Confs.antt =====
-- The configuration on concrete inputs.
use qt_sss_shttps.Common.{
  ◌≡◌, refl, true, false, none, [], ◌∷◌, arith, if◌then◌else◌, Bool, List, ℕ,
}
use qt_sss_shttps.Text.{Text, codes, text_eq}
use qt_sss_shttps.Json.{str, bool, end, field, object}
use qt_sss_shttps.Conf.{
  Conf, Storage, open_conf, insert_at, value_at, flag, set_flag, text_at, set_text, port_at,
  set_port, texts_at, set_texts,
}
use qt_sss_shttps.Conf.Laws.{IsAssigned, setters-AreAssigned, open_conf-insert_at}

abbrev sample_conf : Conf
sample_conf = record {
  changed = false;
  is_ok = true;
  document = object (field (codes "bActive") (bool true) end);
  stored = none;
}

-- A file that can be written.
abbrev pub disk_file : Storage
disk_file = record { opens = true; rereads = λ v. v }

open_conf-insert_at_example :
    let saved = insert_at disk_file (codes "sUser") (str (codes "luke")) sample_conf in
    let again = open_conf disk_file saved.stored in
    (again.is_ok ≡ true)
    × (again.changed ≡ false)
    × ((other : Text)
        → value_at other again ≡ (
            if text_eq (codes "sUser") other
            then str (codes "luke")
            else value_at other sample_conf))
open_conf-insert_at_example =
    open_conf-insert_at disk_file (codes "sUser") (str (codes "luke")) sample_conf (λ fs. refl) refl

setters-AreAssigned_example :
    IsAssigned Bool
      (flag (codes "x"))
      (codes "x")
      true
      sample_conf
      (set_flag (codes "x") disk_file true sample_conf)
    × IsAssigned Text
        (text_at (codes "x") (codes "admin"))
        (codes "x")
        (codes "luke")
        sample_conf
        (set_text (codes "x") (codes "admin") disk_file (codes "luke") sample_conf)
    × IsAssigned ℕ
        (port_at (codes "x") 8080)
        (codes "x")
        443
        sample_conf
        (set_port (codes "x") 8080 disk_file 443 sample_conf)
    × IsAssigned
        (List Text)
        (texts_at (codes "x"))
        (codes "x")
        (codes "10.0.0.1" ∷ [])
        sample_conf
        (set_texts (codes "x") disk_file (codes "10.0.0.1" ∷ []) sample_conf)
setters-AreAssigned_example =
    setters-AreAssigned (codes "x") (codes "admin") 8080 disk_file true (codes "luke") 443
      (codes "10.0.0.1" ∷ []) sample_conf (λ fs. refl) (omega arith)
