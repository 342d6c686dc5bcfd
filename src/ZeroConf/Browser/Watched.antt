-- ===== src/ZeroConf/Browser/Watched.antt =====
-- The objects and the signals of a browser over its life.
use qt_sss_shttps.Common.{
  sym, subst, Option-cases, inl, inr, ℕ, ==_iff, ◌≡◌, refl, ap, ◌∙◌, Bool, true, false, Option,
  none, some, List, [], ◌∷◌, All, All-append, if-both, arith,
}
use qt_sss_shttps.Text.{Text}
use qt_sss_shttps.ZeroConf.Browser.{
  Protocol, BrowserSignal, error, service_added, service_removed, service_updated, Browser,
  known_protocol, new_browser, new_browser_for, delete_browser, stop_browser, init_browser, browse,
  start_browser, ZeroConfSignal, failed, added, removed, updated, emit, on_signal,
}

-- What happens to a browser. Its object sends signals only while it is there.
pub data Step : Type 0 where
  starts stops : Step
  signals : ZeroConfSignal → Step

unfoldable pub step : Step → Browser → Browser
step starts b = start_browser b
step stops b = stop_browser b
step (signals s) b = elim b.browser [ none ↦ b | some n ↦ on_signal s b ]

unfoldable pub run : List Step → Browser → Browser
run [] b = b
run (s ∷ ss) b = run ss (step s b)

abbrev pub is_removal : BrowserSignal → Bool
is_removal error = false
is_removal (service_added d) = false
is_removal (service_removed d) = true
is_removal (service_updated d) = false

-- The objects that there should be for `pBrowser`.
abbrev pub own : Text → Protocol → Option ℕ → List (ℕ × Option (Text × Protocol))
own t p none = []
own t p (some n) = (n, some (t, p)) ∷ []

-- The object that `pBrowser` points to is the only one that is not deleted; it browses for the type
-- and the protocol of the browser; and no removal was emitted.
pub record IsWatching (t : Text) (p : Protocol) (b : Browser) : Type 0 where
  pub same_type : b.service_type ≡ t
  pub same_protocol : b.protocol ≡ p
  pub single : b.alive ≡ own t p b.browser
  pub silent : All (λ s. is_removal s ≡ false) b.emitted

delete-own : (t : Text) (p : Protocol) (n : ℕ) → delete_browser n (own t p (some n)) ≡ []
unfolding delete_browser
delete-own t p n = ground (arith, ==_iff n n)

browse-own :
    (t : Text) (p : Protocol) (n : ℕ) (bs : List (ℕ × Option (Text × Protocol)))
    → browse t p (some n) ((n, none) ∷ bs) ≡ (n, some (t, p)) ∷ bs
unfolding browse
browse-own t p n bs = ground (arith, ==_iff n n)

stop_browser-none : (b : Browser) → b.browser ≡ none → stop_browser b ≡ b
unfolding stop_browser
stop_browser-none b e = ground (arith, e)

stop_browser-some :
    (b : Browser) (n : ℕ)
    → b.browser ≡ some n
    → stop_browser b ≡ record b { browser = none; alive = delete_browser n b.alive }
unfolding stop_browser
stop_browser-some b n e = ground (arith, e)

-- A browser that is stopped has no object.
record IsStopped (t : Text) (p : Protocol) (b : Browser) : Type 0 where
  pub watching : IsWatching t p b
  pub gone : b.browser ≡ none

stop_browser-IsStopped :
    (t : Text) (p : Protocol) (b : Browser) → IsWatching t p b → IsStopped t p (stop_browser b)
stop_browser-IsStopped t p b w = elim (Option-cases b.browser) [
  | inl e ↦ subst (IsStopped t p) (sym (stop_browser-none b e)) (record { watching = w; gone = e })
  | inr (n, e) ↦ subst (IsStopped t p) (sym (stop_browser-some b n e)) (record {
    watching = record {
      same_type = w.same_type;
      same_protocol = w.same_protocol;
      single = ap (delete_browser n) (w.single ∙ ap (own t p) e) ∙ delete-own t p n;
      silent = w.silent;
    };
    gone = refl;
  })
]

start_browser-IsWatching :
    (t : Text) (p : Protocol) (b : Browser) → IsWatching t p b → IsWatching t p (start_browser b)
unfolding start_browser init_browser
start_browser-IsWatching t p b w =
    let c = stop_browser b in
    let s = stop_browser-IsStopped t p b w in
    record {
      same_type = s.watching.same_type;
      same_protocol = s.watching.same_protocol;
      single =
          browse-own c.service_type c.protocol c.created c.alive
          ∙ (ap (λ u. (c.created, some (u, c.protocol)) ∷ c.alive) s.watching.same_type
              ∙ (ap (λ u. (c.created, some (t, u)) ∷ c.alive) s.watching.same_protocol
                  ∙ ap (λ u. (c.created, some (t, p)) ∷ u)
                      (s.watching.single ∙ ap (own t p) s.gone)));
      silent = s.watching.silent;
    }

emit-IsWatching :
    (t : Text) (p : Protocol) (s : BrowserSignal) (b : Browser)
    → is_removal s ≡ false
    → IsWatching t p b
    → IsWatching t p (emit s b)
unfolding emit
emit-IsWatching t p s b e w = record {
  same_type = w.same_type;
  same_protocol = w.same_protocol;
  single = w.single;
  silent = All-append _ b.emitted (s ∷ []) w.silent (e, tt);
}

on_signal-IsWatching :
    (t : Text) (p : Protocol) (s : ZeroConfSignal) (b : Browser)
    → IsWatching t p b
    → IsWatching t p (on_signal s b)
unfolding on_signal
on_signal-IsWatching t p (failed is_error) b w =
    if-both (IsWatching t p) is_error _ _ (emit-IsWatching t p error b refl w) w
on_signal-IsWatching t p (added f) b w = emit-IsWatching t p _ b refl w
on_signal-IsWatching t p (removed f) b w = emit-IsWatching t p _ b refl w
on_signal-IsWatching t p (updated f) b w = emit-IsWatching t p _ b refl w

step-none : (s : ZeroConfSignal) (b : Browser) → b.browser ≡ none → step (signals s) b ≡ b
unfolding step
step-none s b e = ground (arith, e)

step-some :
    (s : ZeroConfSignal) (b : Browser) (n : ℕ)
    → b.browser ≡ some n
    → step (signals s) b ≡ on_signal s b
unfolding step
step-some s b n e = ground (arith, e)

step-IsWatching :
    (t : Text) (p : Protocol) (s : Step) (b : Browser)
    → IsWatching t p b
    → IsWatching t p (step s b)
unfolding step
step-IsWatching t p starts b w = start_browser-IsWatching t p b w
step-IsWatching t p stops b w = (stop_browser-IsStopped t p b w).watching
step-IsWatching t p (signals s) b w = elim (Option-cases b.browser) [
  | inl e ↦ subst (IsWatching t p) (sym (step-none s b e)) w
  | inr (n, e) ↦ subst (IsWatching t p) (sym (step-some s b n e)) (on_signal-IsWatching t p s b w)
]

run-by :
    (t : Text) (p : Protocol) (ss : List Step) (b : Browser)
    → IsWatching t p b
    → IsWatching t p (run ss b)
unfolding run
run-by t p [] b w = w
run-by t p (s ∷ ss) b w = run-by t p ss (step s b) (step-IsWatching t p s b w)

-- Over any calls of start and stop and any signals of its object: the browser has one object that
-- is not deleted while it runs and none otherwise, which browses for the type that it was made
-- with, and for its protocol, or IPv4 where that is unknown; and it never emits that a service
-- was removed.
pub run-IsWatching :
    (t : Text) (p : Protocol) (ss : List Step)
    → IsWatching t (known_protocol p) (run ss (new_browser_for t p))
unfolding new_browser_for new_browser
run-IsWatching t p ss =
    run-by t (known_protocol p) ss (new_browser_for t p)
      (record { same_type = refl; same_protocol = refl; single = refl; silent = tt })
