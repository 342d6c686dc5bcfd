-- ===== src/Www/Header.antt =====
-- WWWheader.h and WWWheader.cpp: one header line, its parser and its text.
pub mod RoundTrip
use qt_sss_shttps.Common.{
  ℕ, suc, ◌≡◌, refl, ap, ◌∙◌, ◌≢◌, Bool, true, false, Option, none, some, List, [], ◌∷◌, ◌++◌,
  append_assoc, arith, if◌then◌else◌, take, drop, length, take-append, drop-append, All, All-append,
}
use qt_sss_shttps.Text.{Text, codes, is_empty, is_space, index_of, trimmed}
use qt_sss_shttps.Text.Laws.{
  Lacks, IsTrimmed, IsBlank, EndsPlain, StartsPlain, index_of-append, trimmed-append,
  trimmed_of_IsTrimmed, trimmed-skip,
}
use qt_sss_shttps.Codec.{Codec, IsCodec}

pub record WwwHeader : Type 0 where
  pub title : Text
  pub value : Text

-- A header with no title.
abbrev pub null_header : WwwHeader
null_header = record { title = []; value = [] }

unfoldable pub is_null : WwwHeader → Bool
is_null h = is_empty h.title

-- The part of the constructor after the line is found not to be empty.
unfoldable pub split_header : Text → Option ℕ → WwwHeader
split_header line none = null_header
split_header line (some i) = record {
  title = trimmed (take i line);
  value = trimmed (drop (suc i) line);
}

-- The constructor for requests. `fromLatin1` keeps each byte's value.
unfoldable pub parse_header : Text → WwwHeader
unfolding split_header
parse_header raw =
    let line = trimmed raw in
    if is_empty line then null_header else split_header line (index_of line b':')

unfoldable pub header_string : Codec → WwwHeader → Text
header_string q h = q.arg (q.arg (codes "%1: %2") h.title) h.value

-- A header that a client may send: a title with no colon and no white space at its ends, and a
-- value with none at its ends.
pub record IsClean (h : WwwHeader) : Type 0 where
  pub some_title : h.title ≢ []
  pub no_colon : Lacks b':' h.title
  pub trimmed_title : IsTrimmed h.title
  pub trimmed_value : IsTrimmed h.value

abbrev pub line_of : WwwHeader → Text
line_of h = h.title ++ (codes ": " ++ h.value)
