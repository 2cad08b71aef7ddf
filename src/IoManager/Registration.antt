-- ===== src/IoManager/Registration.antt =====
-- kit_server/iomanager.cpp: addEvent and delEvent on a valid manager.
use kit_server.Common.{
  ℕ, ◌+◌, ◌*◌, ◌/◌, ◌≤◌, ◌<◌, ◌≡◌, refl, sym, ap, ◌∙◌, arith, ltb, ltb→lt, lt→ltb, not_lt→ltb,
  if◌then◌else◌, ◌∷◌, length, Option, none, some, Bool, true, false, ◌&&◌, ◌||◌, Bool-cases, inl,
  inr,
}
use mathlib.Core.Bool.{and-eq-true_iff, true≢false}
use kit_server.IoManager.{
  Event, read, write, Events, has, with, without, any, IoManager, context_at, context_resize,
  mod_or_del, del_event, blank_event, put_event_context, update, decrement, increment, FdContext,
  put_context, add_to, add_looked, add_event, put_bound, bind, is_blank, get_event_context,
  EventContext, is_none, add, mod_,
}
use kit_server.IoManager.Contexts.{
  SideOk, off, by_cb, by_coroutine, ContextOk, bit, count, total, context_at-put_context,
  context_at-put_context_other, length-put_context, total-put_context, context_at-ContextOk,
  context_at-context_resize, total-context_resize, context_resize-All, length-context_resize,
}
use kit_server.Common.{◌%◌, ◌^◌, dec_lt}
use kit_server.IoManager.Epoll.{wanted, mod_or_del_lem, add_lem}
use kit_server.IoManager.Steps.{
  Changed-IsValid, update-IsSound, decrement_lem, increment_lem, IsValid, watched_lem, has-any,
}
use kit_server.IoManager.Operations.{Ends}

-- Registering an event of a descriptor, and taking one away.
added-ContextOk :
    (ev : Event) (e : EventContext) (c : FdContext)
    → ContextOk c
    → SideOk true e
    → ContextOk (put_event_context ev e (record c { events = with ev c.events }))
unfolding put_event_context with
added-ContextOk read e c ok s = (s, ok.1)
added-ContextOk write e c ok s = (ok.0, s)

deleted-ContextOk :
    (ev : Event) (c : FdContext)
    → ContextOk c
    → ContextOk (put_event_context ev blank_event (record c { events = without ev c.events }))
unfolding put_event_context without
deleted-ContextOk read c ok = (off refl refl, ok.1)
deleted-ContextOk write c ok = (ok.0, off refl refl)

put_events :
    (ev : Event) (e : EventContext) (c : FdContext) → (put_event_context ev e c).events ≡ c.events
unfolding put_event_context
put_events read e c = refl
put_events write e c = refl

with-any : (ev : Event) (s : Events) → any (with ev s) ≡ true
unfolding any with
with-any read s = refl
with-any write s = or_true s.reads
  where
    or_true : (b : Bool) → (b || true) ≡ true
    or_true true = refl
    or_true false = refl

count-with : (ev : Event) (s : Events) → has ev s ≡ false → count (with ev s) ≡ count s + 1
unfolding has with
count-with read s h = omega (arith, ap bit h)
count-with write s h = omega (arith, ap bit h)

count-without : (ev : Event) (s : Events) → has ev s ≡ true → count (without ev s) + 1 ≡ count s
unfolding has without
count-without read s h = omega (arith, ap bit h)
count-without write s h = omega (arith, ap bit h)

blank_side : (b : Bool) (e : EventContext) → b ≡ false → SideOk b e → is_blank e ≡ true
unfolding is_blank is_none
blank_side b e h (off r x) = rw x refl
blank_side b e h (by_cb f r x) = absurd (true≢false (sym r ∙ h))
blank_side b e h (by_coroutine c r x) = absurd (true≢false (sym r ∙ h))

-- The context of an event that is not registered is blank.
is_blank_lem :
    (ev : Event) (c : FdContext)
    → ContextOk c
    → has ev c.events ≡ false
    → is_blank (get_event_context ev c) ≡ true
unfolding has get_event_context
is_blank_lem read c ok h = blank_side c.events.reads c.read_event h ok.0
is_blank_lem write c ok h = blank_side c.events.writes c.write_event h ok.1

pub del_event-Ends :
    (ok : Bool) (fd : ℕ) (ev : Event) (m : IoManager) → IsValid m → Ends (del_event ok fd ev m)
unfolding del_event
del_event-Ends ok fd ev m v =
    elim (Bool-cases
      (ltb fd (length m.contexts) && (has ev (context_at fd m.contexts).events && ok))) [
        | inr e ↦ rw e (m, false, refl, v)
        | inl e ↦
            let c = context_at fd m.contexts in
            let s = c.events in
            let guard = (and-eq-true_iff (ltb fd (length m.contexts)) (has ev s && ok)).0 e in
            let inside = ltb→lt fd (length m.contexts) guard.0 in
            let registered = (and-eq-true_iff (has ev s) ok).0 guard.1 in
            let op = mod_or_del fd (without ev s) in
            let d = put_event_context ev blank_event (record c { events = without ev s }) in
            let d_events : d.events ≡ without ev s =
              put_events ev blank_event (record c { events = without ev s }) in
            let fewer : total (put_context fd d m.contexts) + 1 ≡ total m.contexts = omega (
              arith,
              total-put_context fd d m.contexts inside,
              count-without ev s registered.0,
              ap count d_events,
            ) in
            let m' = update fd d (record m { pending = decrement m.pending; log = op ∷ m.log }) in
            rw e (
              m',
              true,
              refl,
              Changed-IsValid fd (without ev s) op m m' v.told
                  (mod_or_del_lem fd s (without ev s) m.log
                    (watched_lem fd m v.told (has-any ev s registered.0)) v.told.legal)
                  record {
                    sound =
                        update-IsSound fd d (decrement m.pending) (op ∷ m.log) m.queue m v.sound
                          (deleted-ContextOk ev c
                            (context_at-ContextOk fd m.contexts v.sound.contexts))
                          inside
                          (decrement_lem m.pending (total m.contexts) _ v.sound.counted fewer);
                    here =
                        ap FdContext.events (context_at-put_context fd d m.contexts inside)
                        ∙ d_events;
                    others = λ j n. context_at-put_context_other fd j d m.contexts n;
                    same_size = length-put_context fd d m.contexts;
                    same_log = refl;
                  },
            )
      ]

-- `bind` finds a callback, or a coroutine that runs.
bind_lem :
    (running : Bool) (current : ℕ) (cb : Option ℕ)
    → (cb ≡ none → running ≡ true)
    → (e : EventContext) × (bind true running current cb ≡ some e) × SideOk true e
unfolding bind
bind_lem running current (some f) h = (_, refl, by_cb f refl refl)
bind_lem running current none h = (_, rw (h refl) refl, by_coroutine current refl refl)

add_to-Ends :
    (ok running : Bool) (current fd : ℕ) (ev : Event) (cb : Option ℕ) (m : IoManager)
    → IsValid m
    → fd < length m.contexts
    → has ev (context_at fd m.contexts).events ≡ false
    → (cb ≡ none → running ≡ true)
    → Ends (add_to ok true running current fd ev cb m)
unfolding add_to put_bound
add_to-Ends false running current fd ev cb m v h free bound = rw free (m, false, refl, v)
add_to-Ends true running current fd ev cb m v h free bound =
    let c = context_at fd m.contexts in
    let c_ok = context_at-ContextOk fd m.contexts v.sound.contexts in
    let all = with ev c.events in
    let (e, bind_eq, side) = bind_lem running current cb bound in
    let op = if any c.events then mod_ fd all else add fd all in
    let d = put_event_context ev e (record c { events = all }) in
    let d_events : d.events ≡ all = put_events ev e (record c { events = all }) in
    let grown : total (put_context fd d m.contexts) ≡ total m.contexts + 1 = omega (
      arith,
      total-put_context fd d m.contexts h,
      count-with ev c.events free,
      ap count d_events,
    ) in
    let m' = update fd d (record m { pending = increment m.pending; log = op ∷ m.log }) in
    rw (free, is_blank_lem ev c c_ok free, bind_eq)
      (
        m',
        true,
        refl,
        Changed-IsValid fd all op m m' v.told
            (add_lem fd c.events all m.log (v.told.watched fd) (with-any ev c.events) v.told.legal)
            record {
              sound =
                  update-IsSound fd d (increment m.pending) (op ∷ m.log) m.queue m v.sound
                    (added-ContextOk ev e c c_ok side) h
                    (increment_lem m.pending (total m.contexts) _ v.sound.counted grown);
              here = ap FdContext.events (context_at-put_context fd d m.contexts h) ∙ d_events;
              others = λ j n. context_at-put_context_other fd j d m.contexts n;
              same_size = length-put_context fd d m.contexts;
              same_log = refl;
            },
      )

-- New contexts at the end keep a manager valid.
context_resize-IsValid :
    (n : ℕ) (m : IoManager)
    → IsValid m
    → length m.contexts ≤ n
    → IsValid (record m { contexts = context_resize n m.contexts })
context_resize-IsValid n m v h = record {
  sound = record {
    contexts = context_resize-All n m.contexts h v.sound.contexts;
    counted = v.sound.counted ∙ ap (λ t. t % 2 ^ 64) (sym (total-context_resize n m.contexts h));
    enough = omega (arith, length-context_resize n m.contexts, v.sound.enough);
  };
  told = record {
    watched = λ fd.
        v.told.watched fd
        ∙ ap (λ c. wanted c.events) (sym (context_at-context_resize fd n m.contexts h));
    legal = v.told.legal;
  };
}

-- In a valid manager addEvent, called by a thread of a scheduler for an event that is not registered,
-- with a callback or from a coroutine that runs, ends with no failed assertion, also for a descriptor
-- behind the vector's end and whether epoll_ctl succeeds or not, and leaves a valid manager.
pub add_event-Ends :
    (ok running : Bool) (current fd : ℕ) (ev : Event) (cb : Option ℕ) (m : IoManager)
    → IsValid m
    → has ev (context_at fd m.contexts).events ≡ false
    → (cb ≡ none → running ≡ true)
    → Ends (add_event ok true running current fd ev cb m)
unfolding add_looked
add_event-Ends ok running current fd ev cb m v free bound = elim (dec_lt fd (length m.contexts)) [
  | yes l ↦
      let t = lt→ltb fd (length m.contexts) l in
      rw (t, t) (add_to-Ends ok running current fd ev cb m v l free bound)
  | no n ↦
      let larger = record m { contexts = context_resize (fd * 3 / 2) m.contexts } in
      let fits : length m.contexts ≤ fd * 3 / 2 = omega (arith, v.sound.enough) in
      let size = length-context_resize (fd * 3 / 2) m.contexts in
      let inside : fd < length larger.contexts = omega (arith, size, v.sound.enough) in
      rw
        (not_lt→ltb fd (length m.contexts) (omega arith), lt→ltb fd (length larger.contexts) inside)
        (add_to-Ends ok running current fd ev cb larger
          (context_resize-IsValid (fd * 3 / 2) m v fits) inside
          (ap (λ x. has ev x.events) (context_at-context_resize fd (fd * 3 / 2) m.contexts fits)
            ∙ free)
          bound)
]
