-- ===== src/Www/Response/Defaults.antt =====
-- The headers that `finalize` leaves in the table.
use qt_sss_shttps.Common.{
  ℕ, ◌≡◌, ◌≢◌, ap, ◌∙◌, Option, none, some, List, [], ◌∷◌, arith, if◌then◌else◌, is_negative,
  abs_value, pos, length, All,
}
use qt_sss_shttps.Text.{Text, codes}
use qt_sss_shttps.Text.Laws.{is_empty_iff}
use qt_sss_shttps.Text.Decimal.{decimal}
use qt_sss_shttps.Codec.{Codec, same_ci}
use qt_sss_shttps.Hash.{Hash}
use qt_sss_shttps.Www.Header.{WwwHeader}
use qt_sss_shttps.Www.Response.{
  OpenFile, WwwResponse, default_header, default_table, set_defaults, length_for, length_header,
  set_length, choose_transport, finalize,
}
use qt_sss_shttps.Www.Response.Headers.{
  value_of, HasKeys, value_of-add_header, value_of-default_header, default_header-HasKeys,
  value_of-same_ci,
}

abbrev pub or_else : Option Text → Option Text → Option Text
or_else none d = d
or_else (some t) d = some t

default_table_titles : All (λ d. d.0 ≢ []) default_table
default_table_titles = (cc, (cc, (cc, (cc, (cc, tt)))))

module _ (q : Codec) where
  -- The default for a title, whatever its case.
  unfoldable pub value_in : List (Text × Text) → Text → Option Text
  value_in [] other = none
  value_in ((title, value) ∷ ds) other =
      if same_ci q other title then some value else value_in ds other

  set_defaults-HasKeys :
      (ds : List (Text × Text)) (hs : Hash WwwHeader) → HasKeys hs → HasKeys (set_defaults q ds hs)
  unfolding set_defaults
  set_defaults-HasKeys [] hs k = k
  set_defaults-HasKeys ((title, value) ∷ ds) hs k =
      set_defaults-HasKeys ds (default_header q title value hs)
        (default_header-HasKeys q title value hs k)

  -- A value that was set stays; a title without one gets its first default.
  value_of-set_defaults :
      (ds : List (Text × Text)) (other : Text) (hs : Hash WwwHeader)
      → All (λ d. d.0 ≢ []) ds
      → HasKeys hs
      → value_of q (set_defaults q ds hs) other ≡ or_else (value_of q hs other) (value_in ds other)
  unfolding set_defaults value_in
  value_of-set_defaults [] other hs n k = ground arith
  value_of-set_defaults ((title, value) ∷ ds) other hs (n, ns) k = ground (
    arith,
    value_of-set_defaults ds other (default_header q title value hs) ns
        (default_header-HasKeys q title value hs k),
    value_of-default_header q title value other hs n k,
    value_of-same_ci q other title hs,
  )

  value_of-length_header :
      (n : ℕ) (other : Text) (hs : Hash WwwHeader)
      → HasKeys hs
      → value_of q (length_header q (pos n) hs) other ≡ (
          if same_ci q other (codes "Content-Length")
          then some (decimal n)
          else value_of q hs other)
  unfolding length_header is_negative abs_value
  value_of-length_header n other hs k =
      value_of-add_header q (codes "Content-Length") (decimal n) other hs (cc) k

  choose_transport-text :
      (opened : Option OpenFile) (mime : Text) (r : WwwResponse)
      → r.path_file ≡ []
      → let r' = choose_transport q opened mime r in
        (r'.headers ≡ r.headers) × (length_for r'.transport r' ≡ pos (length r.body))
  unfolding choose_transport length_for
  choose_transport-text opened mime r e =
      ground (arith, is_empty_iff r.path_file, is_empty_iff r.body)

  -- After finalize of a response without a file, whose table has no empty key, Content-Length is
  -- the number of UTF-16 units of the body, a header that was set keeps its value, and each of
  -- the five defaults fills its gap.
  pub value_of-finalize :
      (opened : Option OpenFile) (mime : Text) (r : WwwResponse) (other : Text)
      → r.path_file ≡ []
      → HasKeys r.headers
      → value_of q (finalize q opened mime r).headers other ≡ (
          if same_ci q other (codes "Content-Length")
          then some (decimal (length r.body))
          else or_else (value_of q r.headers other) (value_in default_table other))
  unfolding finalize set_length
  value_of-finalize opened mime r other e k =
      let (h, l) = choose_transport-text opened mime r e in
      rw (l, h)
        (value_of-length_header (length r.body) other (set_defaults q default_table r.headers)
            (set_defaults-HasKeys default_table r.headers k)
          ∙ ap
              (λ v.
                if same_ci q other (codes "Content-Length")
                then some (decimal (length r.body))
                else v)
              (value_of-set_defaults default_table other r.headers default_table_titles k))
