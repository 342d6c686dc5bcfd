-- ===== src/ZeroConf/Browser.antt =====
-- ZeroConfBrowser of ZeroConfHelpers.h and ZeroConfHelpers.cpp: the search for services.
pub mod Watched
use qt_sss_shttps.Common.{
  ℕ, ◌+◌, ◌==◌, Bool, true, false, Option, none, some, if◌then◌else◌, List, [], ◌∷◌, ◌++◌,
}
use qt_sss_shttps.Text.{Text}
use qt_sss_shttps.ZeroConf.{Descriptor, FoundService, found_descriptor}

-- `QAbstractSocket::NetworkLayerProtocol`.
pub data Protocol : Type 0 where
  ipv4 ipv6 any_ip unknown_protocol : Protocol

-- The signals of the browser.
pub data BrowserSignal : Type 0 where
  error : BrowserSignal
  service_added service_removed service_updated : Descriptor → BrowserSignal

-- `browser` is `pBrowser`, the number of a `QZeroConf` object. `alive` are the objects that are not
-- deleted, each with what it browses for; `emitted` are the signals.
pub record Browser : Type 0 where
  pub protocol : Protocol
  pub service_type : Text
  pub browser : Option ℕ
  pub created : ℕ
  pub alive : List (ℕ × Option (Text × Protocol))
  pub emitted : List BrowserSignal

-- The two constructors.
unfoldable pub new_browser : Text → Browser
new_browser service_type = record {
  protocol = ipv4;
  service_type = service_type;
  browser = none;
  created = 0;
  alive = [];
  emitted = [];
}

unfoldable pub known_protocol : Protocol → Protocol
known_protocol unknown_protocol = ipv4
known_protocol p = p

unfoldable pub new_browser_for : Text → Protocol → Browser
new_browser_for service_type p = record (new_browser service_type) { protocol = known_protocol p }

unfoldable pub delete_browser :
    ℕ → List (ℕ × Option (Text × Protocol)) → List (ℕ × Option (Text × Protocol))
delete_browser n [] = []
delete_browser n ((i, b) ∷ bs) = if i == n then bs else (i, b) ∷ delete_browser n bs

-- `stop`, and the destructor, which calls it.
unfoldable pub stop_browser : Browser → Browser
stop_browser b = elim b.browser [
  | none ↦ b
  | some n ↦ record b { browser = none; alive = delete_browser n b.alive }
]

-- `init`; each signal of the object is connected, `serviceRemoved` to `onServiceAdded`.
unfoldable pub init_browser : Browser → Browser
init_browser b =
    let c = stop_browser b in
    record c {
      browser = some c.created;
      created = c.created + 1;
      alive = (c.created, none) ∷ c.alive;
    }

unfoldable pub browse :
    Text
    → Protocol
    → Option ℕ
    → List (ℕ × Option (Text × Protocol))
    → List (ℕ × Option (Text × Protocol))
browse t p none bs = bs
browse t p (some n) [] = []
browse t p (some n) ((i, b) ∷ bs) =
    if i == n then (i, some (t, p)) ∷ bs else (i, b) ∷ browse t p (some n) bs

-- `start`.
unfoldable pub start_browser : Browser → Browser
start_browser b =
    let c = init_browser b in
    record c { alive = browse c.service_type c.protocol c.browser c.alive }

-- The signals of a `QZeroConf` object.
pub data ZeroConfSignal : Type 0 where
  failed : (is_error : Bool) → ZeroConfSignal
  added removed updated : FoundService → ZeroConfSignal

unfoldable pub emit : BrowserSignal → Browser → Browser
emit s b = record b { emitted = b.emitted ++ (s ∷ []) }

-- `onError`, `onServiceAdded` and `onServiceUpdated`, as `init` connects them.
unfoldable pub on_signal : ZeroConfSignal → Browser → Browser
on_signal (failed is_error) b = if is_error then emit error b else b
on_signal (added f) b = emit (service_added (found_descriptor f)) b
on_signal (removed f) b = emit (service_added (found_descriptor f)) b
on_signal (updated f) b = emit (service_updated (found_descriptor f)) b

-- `onServiceRemoved`, which nothing is connected to.
unfoldable pub on_service_removed : FoundService → Browser → Browser
on_service_removed f b = emit (service_removed (found_descriptor f)) b
