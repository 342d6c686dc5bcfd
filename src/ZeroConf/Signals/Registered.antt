-- ===== src/ZeroConf/Signals/Registered.antt =====
-- The registration of the services of a module.
use qt_sss_shttps.Common.{
  ◌≡◌, refl, ◌∙◌, ap, sym, none, List, [], ◌∷◌, ◌++◌, arith, append-nil, append_assoc,
  if◌then◌else◌,
}
use qt_sss_shttps.Text.{Text}
use qt_sss_shttps.Json.{Json, Fields, to_object}
use qt_sss_shttps.ZeroConf.{AppNames, Descriptor, new_descriptor}
use qt_sss_shttps.ZeroConf.Announcer.{
  Announcer, publish, add_published, on_add_descriptor, clear_pointers, register_each,
}
use qt_sss_shttps.ZeroConf.Signals.{IsSound}
use qt_sss_shttps.ZeroConf.Signals.Sound.{
  publish-descriptors, new_descriptor-announced, on_add_descriptor-IsSound,
}

-- The descriptors of the entries of a configuration, without those that are null.
unfoldable pub wanted_descriptors : AppNames → Text → List Json → List Descriptor
wanted_descriptors n uid [] = []
wanted_descriptors n uid (v ∷ vs) =
    let rest = wanted_descriptors n uid vs in
    if (new_descriptor n uid (to_object v)).is_fine
    then new_descriptor n uid (to_object v) ∷ rest
    else rest

clear_pointers-append :
    (ds es : List Descriptor) → clear_pointers (ds ++ es) ≡ clear_pointers ds ++ clear_pointers es
unfolding clear_pointers
clear_pointers-append [] es = refl
clear_pointers-append (d ∷ ds) es =
    ap (λ ts. record d { announced = none } ∷ ts) (clear_pointers-append ds es)

clear_pointers-new :
    (n : AppNames) (uid : Text) (fs : Fields)
    → clear_pointers (new_descriptor n uid fs ∷ []) ≡ new_descriptor n uid fs ∷ []
unfolding clear_pointers new_descriptor
clear_pointers-new n uid fs = ground arith

publish-cleared :
    (d : Descriptor) (a : Announcer)
    → clear_pointers ((publish d a).0 ∷ []) ≡ clear_pointers (d ∷ [])
unfolding clear_pointers publish
publish-cleared d a = ground arith

add_published-cleared :
    (d : Descriptor) (a : Announcer)
    → clear_pointers (add_published (publish d a)).descriptors
      ≡ clear_pointers (a.descriptors ++ (d ∷ []))
unfolding add_published
add_published-cleared d a =
    ap (λ ds. clear_pointers (ds ++ ((publish d a).0 ∷ []))) (publish-descriptors d a)
    ∙ (clear_pointers-append a.descriptors ((publish d a).0 ∷ [])
        ∙ (ap (λ ds. clear_pointers a.descriptors ++ ds) (publish-cleared d a)
            ∙ sym (clear_pointers-append a.descriptors (d ∷ []))))

on_add_descriptor-cleared :
    (d : Descriptor) (a : Announcer)
    → clear_pointers (on_add_descriptor d a).descriptors
      ≡ clear_pointers (if d.is_fine then a.descriptors ++ (d ∷ []) else a.descriptors)
unfolding on_add_descriptor
on_add_descriptor-cleared d a = ground (arith, add_published-cleared d a)

-- What the registration leaves: the configuration, and behind the descriptors those of the entries.
pub record IsRegistered (ds : List Descriptor) (a b : Announcer) : Type 0 where
  pub is_sound : IsSound b
  pub same_conf : b.conf ≡ a.conf
  pub added : clear_pointers b.descriptors ≡ clear_pointers a.descriptors ++ ds

wanted_descriptors-first :
    (n : AppNames) (uid : Text) (v : Json) (vs : List Json) (ds : List Descriptor)
    → clear_pointers (
          if (new_descriptor n uid (to_object v)).is_fine
          then ds ++ (new_descriptor n uid (to_object v) ∷ [])
          else ds)
        ++ wanted_descriptors n uid vs
      ≡ clear_pointers ds ++ wanted_descriptors n uid (v ∷ vs)
unfolding wanted_descriptors
wanted_descriptors-first n uid v vs ds = ground (
  arith,
  clear_pointers-append ds (new_descriptor n uid (to_object v) ∷ []),
  clear_pointers-new n uid (to_object v),
  append_assoc (clear_pointers ds) (new_descriptor n uid (to_object v) ∷ [])
      (wanted_descriptors n uid vs),
)

pub register_each-IsRegistered :
    (n : AppNames) (uid : Text) (vs : List Json) (a : Announcer)
    → IsSound a
    → IsRegistered (wanted_descriptors n uid vs) a (register_each n uid vs a)
unfolding register_each wanted_descriptors
register_each-IsRegistered n uid [] a h = record {
  is_sound = h;
  same_conf = refl;
  added = sym (append-nil (clear_pointers a.descriptors));
}
register_each-IsRegistered n uid (v ∷ vs) a h =
    let d = new_descriptor n uid (to_object v) in
    let b = on_add_descriptor d a in
    let (s, c) = on_add_descriptor-IsSound d a (new_descriptor-announced n uid (to_object v)) h in
    let r = register_each-IsRegistered n uid vs b s in
    record {
      is_sound = r.is_sound;
      same_conf = r.same_conf ∙ c;
      added =
          r.added
          ∙ (ap (λ ds. ds ++ wanted_descriptors n uid vs) (on_add_descriptor-cleared d a)
              ∙ wanted_descriptors-first n uid v vs a.descriptors);
    }
