-- ===== src/Tests/Responses.antt =====
-- Responses on concrete inputs.
use qt_sss_shttps.Common.{
  ◌≡◌, refl, Bool, true, false, ◌&&◌, none, some, [], ◌∷◌, ◌++◌, arith, ltb, if◌then◌else◌,
  is_negative, abs_value, to_int32,
}
use qt_sss_shttps.Text.{Text, codes, IsAscii, text_eq, is_empty}
use qt_sss_shttps.Codec.{same_ci}
use qt_sss_shttps.Hash.{insert}
use qt_sss_shttps.Www.Header.{header_string}
use qt_sss_shttps.Www.Socket.{Socket}
use qt_sss_shttps.Www.Response.{
  WwwResponse, OpenFile, send_file, new_response, add_header, has_header, set_value, finalize,
  choose_transport, set_length, set_defaults, default_header, default_table, length_for,
  length_header, file_size, full_header_string, with_date, header_lines, status_line,
}
use qt_sss_shttps.Www.Response.Status.{find_status, string_for_status_code}
use qt_sss_shttps.Www.Response.Headers.{value_of}
use qt_sss_shttps.Www.Response.Defaults.{value_of-finalize, value_in, or_else}
use qt_sss_shttps.Www.Response.Failing.{IsOver, run_events-IsOver}
use qt_sss_shttps.Www.Response.Sending.{
  io_ok, write_error, run_events, start_sending, run_timer, is_send_file,
}
use qt_sss_shttps.Www.Response.Delivery.{Delivered}
use qt_sss_shttps.Www.Response.Answers.{start_sending-text, start_sending-file}
use qt_sss_shttps.Text.Decimal.{decimal}
use qt_sss_shttps.Tests.Samples.{
  ascii_lower, place, has_marker, replace_marker, ascii_codec, ascii_codec-IsCodec,
}

abbrev open_socket : Socket
open_socket = record { is_valid = true; is_open = true; is_encrypted = true; sent = [] }

abbrev hello_response : WwwResponse
hello_response = record new_response { body = codes "hello"; buffer_size = 2 }

abbrev hello_file : OpenFile
hello_file = record { content = codes "hello"; position = 0; is_sequential = false }

abbrev file_response : WwwResponse
file_response = record new_response { path_file = codes "/a"; buffer_size = 2 }

abbrev sample_date : Text
sample_date = codes "Mon, 1 Jan 2018 00:00:00 GMT"

value_of-finalize_example :
    value_of ascii_codec (finalize ascii_codec none [] hello_response).headers (codes "Server") ≡ (
      if same_ci ascii_codec (codes "Server") (codes "Content-Length")
      then some (decimal 5)
      else or_else
          (value_of ascii_codec [] (codes "Server"))
          (value_in ascii_codec default_table (codes "Server")))
value_of-finalize_example =
    value_of-finalize ascii_codec none [] hello_response (codes "Server") refl tt

-- A test of `IsAscii`.
abbrev is_ascii : Text → Bool
is_ascii [] = true
is_ascii (c ∷ t) = ltb c 128 && is_ascii t

IsAscii-of_is_ascii : (t : Text) → is_ascii t ≡ true → IsAscii t
IsAscii-of_is_ascii [] e = tt
IsAscii-of_is_ascii (c ∷ t) e = (ground arith, IsAscii-of_is_ascii t (ground arith))

text_headers-IsAscii :
    IsAscii
      (full_header_string ascii_codec sample_date (finalize ascii_codec none [] hello_response))
unfolding full_header_string with_date header_lines status_line finalize choose_transport set_length
    set_defaults default_header length_for length_header file_size add_header has_header set_value
    insert header_string string_for_status_code decimal same_ci text_eq is_empty is_negative
    find_status abs_value to_int32 place has_marker replace_marker ascii_lower
text_headers-IsAscii =
    IsAscii-of_is_ascii
      (full_header_string ascii_codec sample_date (finalize ascii_codec none [] hello_response))
      refl

start_sending-text_example :
    Delivered open_socket
      (full_header_string ascii_codec sample_date (finalize ascii_codec none [] hello_response)
        ++ codes "hello")
      (run_timer ascii_codec 7
        (start_sending ascii_codec none [] sample_date hello_response open_socket).0
        (start_sending ascii_codec none [] sample_date hello_response open_socket).1)
start_sending-text_example =
    start_sending-text ascii_codec none [] sample_date hello_response open_socket
      ascii_codec-IsCodec refl (omega arith) text_headers-IsAscii refl refl (omega arith) refl refl

file_headers-IsAscii : IsAscii (
    full_header_string ascii_codec sample_date
      (finalize ascii_codec (some hello_file) (codes "text/plain") file_response))
unfolding full_header_string with_date header_lines status_line finalize choose_transport set_length
    set_defaults default_header length_for length_header file_size add_header has_header set_value
    insert header_string string_for_status_code decimal same_ci text_eq is_empty is_negative
    find_status abs_value to_int32 place has_marker replace_marker ascii_lower
file_headers-IsAscii =
    IsAscii-of_is_ascii
      (full_header_string ascii_codec sample_date
        (finalize ascii_codec (some hello_file) (codes "text/plain") file_response))
      refl

start_sending-file_example :
    Delivered open_socket
      (full_header_string ascii_codec sample_date
          (finalize ascii_codec (some hello_file) (codes "text/plain") file_response)
        ++ codes "hello")
      (run_timer ascii_codec 6
        (start_sending ascii_codec
          (some hello_file)
          (codes "text/plain")
          sample_date
          file_response
          open_socket).0
        (start_sending ascii_codec
          (some hello_file)
          (codes "text/plain")
          sample_date
          file_response
          open_socket).1)
start_sending-file_example =
    start_sending-file ascii_codec hello_file (codes "text/plain") sample_date file_response
      open_socket ascii_codec-IsCodec (cc) refl refl (omega arith) file_headers-IsAscii refl
      (omega arith) refl refl

is_file : is_send_file send_file ≡ true
unfolding is_send_file
is_file = refl

run_events-IsOver_example : IsOver (
    run_events ascii_codec
      (io_ok ∷ write_error ∷ io_ok ∷ io_ok ∷ io_ok ∷ io_ok ∷ [])
      (record file_response { transport = send_file; timer = true; file = some hello_file })
      open_socket)
run_events-IsOver_example =
    run_events-IsOver ascii_codec (io_ok ∷ write_error ∷ io_ok ∷ io_ok ∷ io_ok ∷ io_ok ∷ [])
      (record file_response { transport = send_file; timer = true; file = some hello_file })
      hello_file open_socket is_file refl refl (omega arith) (omega arith) (omega arith)
