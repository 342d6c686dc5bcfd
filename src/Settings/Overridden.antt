-- ===== src/Settings/Overridden.antt =====
-- What the command line changes of the settings, and what it does not.
use qt_sss_shttps.Common.{
  ℕ, ◌≡◌, refl, ap, ◌∙◌, sym, Bool, true, false, Option, none, some, if◌then◌else◌, [], ◌∷◌, ◌++◌,
  arith, Option-cases, inl, inr,
}
use qt_sss_shttps.Text.{Text, codes, text_eq, is_empty, ends_with}
use qt_sss_shttps.Hash.{Hash, lookup, insert}
use qt_sss_shttps.Settings.{
  Variant, text_value, variant_text, Surroundings, CommandLine, AppSettings, new_settings,
  verbose_key, pid_path_file, https_path_key, https_path_cert, path_base_key, path_or_default,
  get_stored, get, init_overrides, init_paths, read_modules, put_stored, store_current,
  open_settings, init_settings,
}

ends_with-append : (t u : Text) (c : ℕ) → ends_with u c ≡ true → ends_with (t ++ u) c ≡ true
unfolding ends_with
ends_with-append [] u c e = e
ends_with-append (x ∷ []) [] c e = absurd (cc e)
ends_with-append (x ∷ []) (y ∷ u) c e = e
ends_with-append (x ∷ y ∷ t) u c e = ends_with-append (y ∷ t) u c e

put_stored-path :
    (key : Text) (o : Option Variant) (s : AppSettings)
    → (put_stored key o s).path_data_base ≡ s.path_data_base
unfolding put_stored
put_stored-path key none s = refl
put_stored-path key (some v) s = refl

-- The base path for what the command line gives.
abbrev base_path_for : Surroundings → Option Variant → Text
base_path_for z none = z.documents ++ (codes "/" ++ (z.application_name ++ codes "/"))
base_path_for z (some v) =
    variant_text v
    ++ ((if ends_with (variant_text v) b'/' then [] else codes "/")
        ++ (z.application_name ++ codes "/"))

base_path_for-ends_with :
    (z : Surroundings) (o : Option Variant) → ends_with (base_path_for z o) b'/' ≡ true
unfolding ends_with
base_path_for-ends_with z none = ends_with-append z.documents _ b'/' (
    ends_with-append (codes "/") (z.application_name ++ codes "/") b'/'
      (ends_with-append z.application_name (codes "/") b'/' (ground arith)))
base_path_for-ends_with z (some v) = ends_with-append (variant_text v) _ b'/' (
    ends_with-append (if ends_with (variant_text v) b'/' then [] else codes "/") _ b'/'
      (ends_with-append z.application_name (codes "/") b'/' (ground arith)))

init_paths-path :
    (z : Surroundings) (s : AppSettings) (o : Option Variant)
    → lookup path_base_key s.overrides ≡ o
    → (init_paths z s).path_data_base ≡ base_path_for z o
unfolding init_paths
init_paths-path z s none e = rw (e, init_paths) refl
init_paths-path z s (some v) e = rw (e, init_paths) refl

store_current-path :
    (z : Surroundings) (key : Text) (s : AppSettings)
    → (store_current z key s).path_data_base ≡ s.path_data_base
unfolding store_current
store_current-path z key s = put_stored-path key (get z key s) s

-- After init the path of the data ends with a slash, whatever base path the command line gives.
init_settings-ends_with :
    (z : Surroundings) (line : CommandLine)
    → ends_with (init_settings z line new_settings).path_data_base b'/' ≡ true
unfolding init_settings open_settings read_modules
init_settings-ends_with z line =
    ap (λ t. ends_with t b'/')
      (store_current-path z verbose_key _
        ∙ store_current-path z pid_path_file _
        ∙ store_current-path z https_path_key _
        ∙ store_current-path z https_path_cert _
        ∙ init_paths-path z (init_overrides z line new_settings) _ refl)
    ∙ base_path_for-ends_with z _

-- Two states of the settings before the end of init that a `get` can not tell apart.
record Agrees (s t : AppSettings) : Type 0 where
  pub path : s.path_data_base ≡ t.path_data_base
  pub stored : s.stored ≡ t.stored
  pub early : s.init_done ≡ false
  pub early_too : t.init_done ≡ false

get_early :
    (z : Surroundings) (key : Text) (s : AppSettings)
    → s.init_done ≡ false
    → get z key s ≡ get_stored z s key s.stored
unfolding get
get_early z key s e =
    ap
      (λ b.
        if b
        then (elim (lookup key s.overrides) [
          | none ↦ get_stored z s key s.stored
          | some v ↦ some v
        ])
        else get_stored z s key s.stored)
      e

get_stored-path :
    (z : Surroundings) (key : Text) (s t : AppSettings) (o : Option (Hash Variant))
    → s.path_data_base ≡ t.path_data_base
    → get_stored z s key o ≡ get_stored z t key o
unfolding get_stored path_or_default
get_stored-path z key s t o e = ap (λ p. get_stored z (record s { path_data_base = p }) key o) e

put_into : Text → Option Variant → Option (Hash Variant) → Option (Hash Variant)
put_into key none o = o
put_into key (some v) o = elim o [ none ↦ none | some h ↦ some (insert key v h) ]

put_stored-stored :
    (key : Text) (o : Option Variant) (s : AppSettings)
    → (put_stored key o s).stored ≡ put_into key o s.stored
unfolding put_stored put_into
put_stored-stored key none s = refl
put_stored-stored key (some v) s = refl

put_stored-init_done :
    (key : Text) (o : Option Variant) (s : AppSettings)
    → (put_stored key o s).init_done ≡ s.init_done
unfolding put_stored
put_stored-init_done key none s = refl
put_stored-init_done key (some v) s = refl

store_current-Agrees :
    (z : Surroundings) (key : Text) (s t : AppSettings)
    → Agrees s t
    → Agrees (store_current z key s) (store_current z key t)
unfolding store_current
store_current-Agrees z key s t a =
    let same =
      get_early z key s a.early
      ∙ get_stored-path z key s t s.stored a.path
      ∙ ap (get_stored z t key) a.stored
      ∙ sym (get_early z key t a.early_too) in
    record {
      path = put_stored-path key _ s ∙ a.path ∙ sym (put_stored-path key _ t);
      stored =
          put_stored-stored key _ s
          ∙ ap (λ o. put_into key o s.stored) same
          ∙ ap (put_into key (get z key t)) a.stored
          ∙ sym (put_stored-stored key _ t);
      early = put_stored-init_done key _ s ∙ a.early;
      early_too = put_stored-init_done key _ t ∙ a.early_too;
    }

lookup-overrides :
    (z : Surroundings) (base : Text) (verbose : Bool)
    → lookup path_base_key
        (init_overrides z (record { path_given = base; verbose = verbose }) new_settings).overrides
      ≡ (if is_empty (z.trim base) then none else some (text_value (z.trim base)))
unfolding init_overrides insert lookup text_eq
lookup-overrides z base verbose = ground arith

init_paths-init_done :
    (z : Surroundings) (s : AppSettings) → (init_paths z s).init_done ≡ s.init_done
unfolding init_paths
init_paths-init_done z s = elim (Option-cases (lookup path_base_key s.overrides)) [
  | inl e ↦ rw (e, init_paths) refl
  | inr (v, e) ↦ rw (e, init_paths) refl
]

abbrev opened : Surroundings → Text → Bool → AppSettings
opened z base verbose = open_settings z (
    read_modules z (
      init_paths z
        (init_overrides z (record { path_given = base; verbose = verbose }) new_settings)))

opened-path :
    (z : Surroundings) (base : Text) (verbose : Bool)
    → (opened z base verbose).path_data_base
      ≡ base_path_for z (if is_empty (z.trim base) then none else some (text_value (z.trim base)))
unfolding open_settings read_modules
opened-path z base verbose = init_paths-path z _ _ (lookup-overrides z base verbose)

opened-init_done :
    (z : Surroundings) (base : Text) (verbose : Bool) → (opened z base verbose).init_done ≡ false
unfolding open_settings read_modules init_overrides
opened-init_done z base verbose = init_paths-init_done z _

opened-Agrees :
    (z : Surroundings) (base : Text) (a b : Bool) → Agrees (opened z base a) (opened z base b)
unfolding open_settings read_modules
opened-Agrees z base a b =
    let same = opened-path z base a ∙ sym (opened-path z base b) in
    record {
      path = same;
      stored = ap (λ p. some (z.settings_file (p ++ codes "Settings.ini"))) same;
      early = opened-init_done z base a;
      early_too = opened-init_done z base b;
    }

-- Whether the command line asks to be verbose makes no difference to what init stores: the
-- override is not written to the settings file.
init_settings-stored :
    (z : Surroundings) (base : Text) (a b : Bool)
    → (init_settings z (record { path_given = base; verbose = a }) new_settings).stored
      ≡ (init_settings z (record { path_given = base; verbose = b }) new_settings).stored
unfolding init_settings
init_settings-stored z base a b =
    (store_current-Agrees z verbose_key _ _ (
      store_current-Agrees z pid_path_file _ _ (
        store_current-Agrees z https_path_key _ _
          (store_current-Agrees z https_path_cert _ _ (opened-Agrees z base a b))))).stored
