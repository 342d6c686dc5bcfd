-- ===== src/Tests/Messages.antt =====
-- Headers and requests on concrete inputs.
use qt_sss_shttps.Common.{◌≡◌, ◌↔◌, refl, true, [], ◌∷◌, map, arith}
use qt_sss_shttps.Text.{codes, index_of, trimmed, is_space}
use qt_sss_shttps.Text.Laws.{Lacks}
use qt_sss_shttps.Codec.{ascii_upper}
use qt_sss_shttps.Www.Header.{WwwHeader, IsClean}
use qt_sss_shttps.Www.Request.{parse_request, blank_request, is_null_request, first_line}
use qt_sss_shttps.Www.Request.HeaderBlock.{header_table, header_block}
use qt_sss_shttps.Www.Request.RoundTrip.{
  IsWritable, format_request, parse_request-format_request, parse_request-is_null_iff,
}
use qt_sss_shttps.Tests.Samples.{ascii_codec, ascii_codec-IsCodec}

abbrev host_header : WwwHeader
host_header = record { title = codes "Host"; value = codes "a.ch" }

host_header-IsClean : IsClean host_header
unfolding is_space
host_header-IsClean = record {
  some_title = cc;
  no_colon = omega arith;
  trimmed_title = (refl, refl);
  trimmed_value = (refl, refl);
}

sample-IsWritable :
    IsWritable (codes "get") (codes "/") (codes "HTTP/1.1") (host_header ∷ []) (codes "a\nb")
unfolding is_space header_block
sample-IsWritable = record {
  some_method = cc;
  method_word = (omega arith, omega arith);
  target_word = (omega arith, omega arith);
  version_word = (omega arith, omega arith);
  line_trimmed = (refl, refl);
  ascii_method = omega arith;
  lines = (record { clean = host_header-IsClean; one_line = omega arith }, tt);
  ascii_rest = omega arith;
}

parse_request-format_request_example :
    parse_request ascii_codec
      (format_request
        (codes "get")
        (codes "/")
        (codes "HTTP/1.1")
        (host_header ∷ [])
        (codes "a\nb"))
      7
    ≡ record (blank_request
        (format_request
          (codes "get")
          (codes "/")
          (codes "HTTP/1.1")
          (host_header ∷ [])
          (codes "a\nb"))
        7) {
          method = map ascii_upper (codes "get");
          target = codes "/";
          target_original = codes "/";
          headers = header_table [] (host_header ∷ []);
          body = codes "a\nb";
        }
parse_request-format_request_example =
    parse_request-format_request ascii_codec (codes "get") (codes "/") (codes "HTTP/1.1")
      (host_header ∷ []) (codes "a\nb") 7 ascii_codec-IsCodec sample-IsWritable

parse_request-is_null_iff_example :
    (is_null_request (parse_request ascii_codec (codes "GET\r\n\r\n") 7) ≡ true)
    ↔ Lacks 32 (trimmed (first_line (codes "GET\r\n\r\n") (index_of (codes "GET\r\n\r\n") b'\n')))
parse_request-is_null_iff_example =
    parse_request-is_null_iff ascii_codec (codes "GET\r\n\r\n") 7 ascii_codec-IsCodec
