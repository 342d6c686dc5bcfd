-- ===== src/Www/Response/Headers.antt =====
-- The header table of a response as a map whose keys are compared without regard to case.
use qt_sss_shttps.Common.{
  ◌≡◌, refl, ◌≢◌, ◌↔◌, ◌⊎◌, true, false, Option, none, some, [], ◌∷◌, arith, if◌then◌else◌, All,
}
use qt_sss_shttps.Text.{Text}
use qt_sss_shttps.Text.Laws.{text_eq_iff, is_empty_iff}
use qt_sss_shttps.Codec.{Codec, same_ci}
use qt_sss_shttps.Hash.{Hash, insert, remove}
use qt_sss_shttps.Www.Header.{WwwHeader}
use qt_sss_shttps.Www.Response.{has_header, set_value, add_header, default_header, drop_header}

-- What `title` is set to, whatever its case.
unfoldable pub value_of : Codec → Hash WwwHeader → Text → Option Text
value_of q [] title = none
value_of q ((key, h) ∷ hs) title = if same_ci q title key then some h.value else value_of q hs title

abbrev pub get_or : Option Text → Text → Text
get_or none d = d
get_or (some t) d = t

-- No key is empty.
abbrev pub HasKeys : Hash WwwHeader → Type 0
HasKeys hs = All (λ e. e.0 ≢ []) hs

module _ (q : Codec) where
  same_ci_iff : (s t : Text) → (same_ci q s t ≡ true) ↔ (q.fold_case s ≡ q.fold_case t)
  unfolding same_ci
  same_ci_iff s t = text_eq_iff (q.fold_case s) (q.fold_case t)

  has_header-cases :
      (hs : Hash WwwHeader) (title : Text)
      → HasKeys hs
      → ((has_header q hs title ≡ []) × (value_of q hs title ≡ none))
        ⊎ ((has_header q hs title ≢ []) × (value_of q hs title ≢ none))
  unfolding has_header value_of
  has_header-cases [] title k = ground arith
  has_header-cases ((key, h) ∷ hs) title (n, k) = ground (arith, has_header-cases hs title k)

  value_of-insert :
      (title value other : Text) (hs : Hash WwwHeader)
      → value_of q hs title ≡ none
      → value_of q (insert title (record { title = title; value = value }) hs) other
        ≡ (if same_ci q other title then some value else value_of q hs other)
  unfolding value_of insert
  value_of-insert title value other [] e = refl
  value_of-insert title value other ((key, h) ∷ hs) e = ground (
    arith,
    value_of-insert title value other hs,
    text_eq_iff key title,
    same_ci_iff title key,
    same_ci_iff other key,
    same_ci_iff other title,
  )

  has_header-same_ci :
      (title : Text) (hs : Hash WwwHeader)
      → value_of q hs title ≢ none
      → same_ci q title (has_header q hs title) ≡ true
  unfolding value_of has_header
  has_header-same_ci title [] e = absurd (e refl)
  has_header-same_ci title ((key, h) ∷ hs) e = ground (arith, has_header-same_ci title hs)

  -- The entry that `hasHeader` finds is the one that `setValue` changes.
  value_of-set_value :
      (title value other found : Text) (hs : Hash WwwHeader)
      → value_of q hs title ≢ none
      → found ≡ has_header q hs title
      → value_of q (set_value found value hs) other
        ≡ (if same_ci q other title then some value else value_of q hs other)
  unfolding value_of has_header set_value
  value_of-set_value title value other found [] e p = absurd (e refl)
  value_of-set_value title value other found ((key, h) ∷ hs) e p = ground (
    arith,
    value_of-set_value title value other found hs,
    has_header-same_ci title hs,
    text_eq_iff key found,
    same_ci_iff title key,
    same_ci_iff title found,
    same_ci_iff other key,
    same_ci_iff other title,
  )

  -- In a header table without an empty key, addHeader with a title that is not empty sets the
  -- value for every spelling of the title by case, and leaves the value of every other title.
  pub value_of-add_header :
      (title value other : Text) (hs : Hash WwwHeader)
      → title ≢ []
      → HasKeys hs
      → value_of q (add_header q title value hs) other
        ≡ (if same_ci q other title then some value else value_of q hs other)
  unfolding add_header
  value_of-add_header title value other hs n k = ground (
    arith,
    has_header-cases hs title k,
    value_of-insert title value other hs,
    value_of-set_value title value other (has_header q hs title) hs,
    is_empty_iff title,
    is_empty_iff (has_header q hs title),
  )

  insert-HasKeys :
      (title : Text) (h : WwwHeader) (hs : Hash WwwHeader)
      → title ≢ []
      → HasKeys hs
      → HasKeys (insert title h hs)
  unfolding insert
  insert-HasKeys title h [] n k = (n, tt)
  insert-HasKeys title h ((key, g) ∷ hs) n (m, k) = ground (arith, insert-HasKeys title h hs n k)

  set_value-HasKeys :
      (key value : Text) (hs : Hash WwwHeader) → HasKeys hs → HasKeys (set_value key value hs)
  unfolding set_value
  set_value-HasKeys key value [] k = tt
  set_value-HasKeys key value ((j, g) ∷ hs) (m, k) =
      ground (arith, set_value-HasKeys key value hs k)

  pub add_header-HasKeys :
      (title value : Text) (hs : Hash WwwHeader)
      → HasKeys hs
      → HasKeys (add_header q title value hs)
  unfolding add_header
  add_header-HasKeys title value hs k = ground (
    arith,
    is_empty_iff title,
    insert-HasKeys title (record { title = title; value = value }) hs,
    set_value-HasKeys (has_header q hs title) value hs k,
  )

  pub value_of-same_ci :
      (s t : Text) (hs : Hash WwwHeader) → same_ci q s t ≡ true → value_of q hs s ≡ value_of q hs t
  unfolding value_of
  value_of-same_ci s t [] e = refl
  value_of-same_ci s t ((key, h) ∷ hs) e =
      ground
        (arith, value_of-same_ci s t hs e, same_ci_iff s t, same_ci_iff s key, same_ci_iff t key)

  -- A default is set where the title has no value, and changes nothing else.
  pub value_of-default_header :
      (title value other : Text) (hs : Hash WwwHeader)
      → title ≢ []
      → HasKeys hs
      → value_of q (default_header q title value hs) other ≡ (
          if same_ci q other title
          then some (get_or (value_of q hs title) value)
          else value_of q hs other)
  unfolding default_header
  value_of-default_header title value other hs n k = ground (
    arith,
    has_header-cases hs title k,
    is_empty_iff (has_header q hs title),
    value_of-add_header title value other hs n k,
    value_of-same_ci other title hs,
  )

  pub default_header-HasKeys :
      (title value : Text) (hs : Hash WwwHeader)
      → HasKeys hs
      → HasKeys (default_header q title value hs)
  unfolding default_header
  default_header-HasKeys title value hs k = ground (arith, add_header-HasKeys title value hs k)

  value_of-remove :
      (key title other : Text) (hs : Hash WwwHeader)
      → same_ci q title key ≡ true
      → same_ci q other title ≡ false
      → value_of q (remove key hs) other ≡ value_of q hs other
  unfolding value_of remove
  value_of-remove key title other [] e d = refl
  value_of-remove key title other ((j, h) ∷ hs) e d = ground (
    arith,
    value_of-remove key title other hs e d,
    text_eq_iff j key,
    same_ci_iff title key,
    same_ci_iff other j,
    same_ci_iff other title,
  )

  -- In a header table without an empty key, dropHeader leaves the value of every title that
  -- differs from the dropped one by more than case.
  pub value_of-drop_header :
      (title other : Text) (hs : Hash WwwHeader)
      → HasKeys hs
      → same_ci q other title ≡ false
      → value_of q (drop_header q title hs) other ≡ value_of q hs other
  unfolding drop_header
  value_of-drop_header title other hs k d = ground (
    arith,
    has_header-cases hs title k,
    has_header-same_ci title hs,
    is_empty_iff (has_header q hs title),
    value_of-remove (has_header q hs title) title other hs,
  )
