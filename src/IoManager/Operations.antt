-- ===== src/IoManager/Operations.antt =====
-- kit_server/iomanager.cpp: each operation of a valid manager comes to an end without a failed
-- assertion, and leaves a valid manager.
use kit_server.Common.{
  ℕ, ◌<◌, ◌≡◌, refl, sym, ap, ◌∙◌, subst, arith, ltb, ltb→lt, if◌then◌else◌, ◌∷◌, length, Option,
  none, some, Bool, true, false, not, ◌&&◌, ◌||◌, Bool-cases, inl, inr,
}
use mathlib.Core.Bool.{and-eq-true_iff}
use kit_server.IoManager.{
  Event, read, write, Events, has, without, any, Ctl, del, IoManager, context_at, mod_or_del,
  trigger_at, done, cancel_event, trigger_if, assert_none, cancel_all, both, minus, plus, dispatch,
  dispatch_real, triggered,
}
use kit_server.IoManager.Contexts.{trigger_event-none}
use kit_server.IoManager.Epoll.{wanted, mod_or_del_lem, del-interest}
use kit_server.IoManager.Steps.{
  IsSound, IsValid, Changed, told_lem, watched_lem, has-any, trigger_at_lem, trigger_if_lem,
  after_if, Changed-trans,
}

-- An operation that ends, and leaves a valid manager.
abbrev pub Ends : Option (IoManager × Bool) → Type 0
Ends r = (m : IoManager) × (answer : Bool) × (r ≡ some (m, answer)) × IsValid m

-- The manager after the call of epoll_ctl, before the contexts are changed.
log-IsSound : (m : IoManager) (op : Ctl) → IsSound m → IsSound (record m { log = op ∷ m.log })
log-IsSound m op s = record { contexts = s.contexts; counted = s.counted; enough = s.enough }

pub cancel_event-Ends :
    (ok : Bool) (fd : ℕ) (ev : Event) (m : IoManager) → IsValid m → Ends (cancel_event ok fd ev m)
unfolding cancel_event done
cancel_event-Ends ok fd ev m v =
    elim (Bool-cases
      (ltb fd (length m.contexts) && (has ev (context_at fd m.contexts).events && ok))) [
        | inr e ↦ rw e (m, false, refl, v)
        | inl e ↦
            let s = (context_at fd m.contexts).events in
            let guard = (and-eq-true_iff (ltb fd (length m.contexts)) (has ev s && ok)).0 e in
            let registered = (and-eq-true_iff (has ev s) ok).0 guard.1 in
            let op = mod_or_del fd (without ev s) in
            let (m', eq, c) =
              trigger_at_lem fd ev (record m { log = op ∷ m.log }) (log-IsSound m op v.sound)
                (ltb→lt _ _ guard.0) registered.0 in
            rw (e, eq)
              (
                m',
                true,
                refl,
                record {
                  sound = c.sound;
                  told =
                      told_lem fd (without ev s) op m m' v.told
                        (mod_or_del_lem fd s (without ev s) m.log
                          (watched_lem fd m v.told (has-any ev s registered.0)) v.told.legal)
                        c;
                },
              )
      ]

-- Two events triggered one after the other, each if it is wanted and registered.
trigger_both :
    (p q : Events → Bool) (fd : ℕ) (m : IoManager)
    → IsSound m
    → fd < length m.contexts
    → (p (context_at fd m.contexts).events ≡ true
        → has read (context_at fd m.contexts).events ≡ true)
    → (q (after_if (p (context_at fd m.contexts).events) read (context_at fd m.contexts).events)
          ≡ true
        → has write (context_at fd m.contexts).events ≡ true)
    → (m' : IoManager) × (trigger_if q fd write (trigger_if p fd read (some m)) ≡ some m')
      × Changed fd
          (after_if
            (q (
              after_if
                (p (context_at fd m.contexts).events)
                read
                (context_at fd m.contexts).events))
            write
            (after_if (p (context_at fd m.contexts).events) read (context_at fd m.contexts).events))
          m
          m'
unfolding has without
trigger_both p q fd m s h hp hq =
    let before = (context_at fd m.contexts).events in
    let (m1, e1, c1) = trigger_if_lem p fd read m s h hp in
    let (m2, e2, c2) =
      trigger_if_lem q fd write m1 c1.sound (omega (arith, c1.same_size, h))
        (λ w. kept (p before) before c1.here (hq (ap q (sym c1.here) ∙ w))) in
    (
      m2,
      ap (trigger_if q fd write) e1 ∙ e2,
      Changed-trans c1 (subst (λ t. Changed fd (after_if (q t) write t) m1 m2) c1.here c2),
    )
  where
    kept :
        (b : Bool) (s : Events) {t : Events}
        → t ≡ after_if b read s
        → has write s ≡ true
        → has write t ≡ true
    kept true s e w = ap (has write) e ∙ w
    kept false s e w = ap (has write) e ∙ w

-- Triggering one event leaves the other as it was, and takes its own away.
write_kept : (b : Bool) (s : Events) → has write (after_if b read s) ≡ has write s
unfolding has without
write_kept true s = refl
write_kept false s = refl

reads_gone : (b : Bool) (s : Events) → s.reads ≡ b → (after_if b read s).reads ≡ false
unfolding without
reads_gone true s e = refl
reads_gone false s e = e

writes_gone :
    (b : Bool) (s : Events) → s.reads ≡ false → s.writes ≡ b → any (after_if b write s) ≡ false
unfolding any without
writes_gone true s e h = rw e refl
writes_gone false s e h = rw (e, h) refl

pub cancel_all-Ends : (ok : Bool) (fd : ℕ) (m : IoManager) → IsValid m → Ends (cancel_all ok fd m)
unfolding cancel_all assert_none has wanted
cancel_all-Ends ok fd m v =
    elim (Bool-cases
      (ltb fd (length m.contexts) && (any (context_at fd m.contexts).events && ok))) [
        | inr e ↦ rw e (m, false, refl, v)
        | inl e ↦
            let s = (context_at fd m.contexts).events in
            let guard = (and-eq-true_iff (ltb fd (length m.contexts)) (any s && ok)).0 e in
            let registered = (and-eq-true_iff (any s) ok).0 guard.1 in
            let (m', eq, c) =
              trigger_both (has read) (has write) fd (record m { log = del fd ∷ m.log })
                (log-IsSound m (del fd) v.sound) (ltb→lt _ _ guard.0) (λ w. w) (write_left s) in
            let gone = ap any c.here ∙ cleared s in
            let l = del-interest fd s m.log (watched_lem fd m v.told registered.0) v.told.legal in
            rw (e, eq, gone)
              (
                m',
                true,
                refl,
                record {
                  sound = c.sound;
                  told =
                      told_lem fd (left s) (del fd) m m' v.told
                        (
                          l.0,
                          l.1 ∙ sym (ap (λ b. if b then some (left s) else none) (cleared s)),
                          l.2,
                        )
                        c;
                },
              )
      ]
  where
    left : Events → Events
    left s =
        after_if (has write (after_if (has read s) read s)) write (after_if (has read s) read s)

    write_left : (s : Events) → has write (after_if (has read s) read s) ≡ true → has write s ≡ true
    write_left s w = sym (write_kept (has read s) s) ∙ w

    cleared : (s : Events) → any (left s) ≡ false
    cleared s = writes_gone _ (after_if (has read s) read s) (reads_gone (has read s) s refl) refl

and_false : (b : Bool) → (b && false) ≡ false
and_false true = refl
and_false false = refl

and_true : (b : Bool) → (b && true) ≡ b
and_true true = refl
and_true false = refl

minus_lem : (s r : Events) → after_if r.writes write (after_if r.reads read s) ≡ minus s r
unfolding minus without
minus_lem s r = by_bits r.reads r.writes
  where
    by_bits :
        (b c : Bool)
        → after_if c write (after_if b read s)
          ≡ record { reads = s.reads && not b; writes = s.writes && not c }
    by_bits true true = rw (and_false s.reads, and_false s.writes) refl
    by_bits true false = rw (and_false s.reads, and_true s.writes) refl
    by_bits false true = rw (and_true s.reads, and_false s.writes) refl
    by_bits false false = rw (and_true s.reads, and_true s.writes) refl

both-any : (s r : Events) → any (both s r) ≡ true → any s ≡ true
unfolding any both
both-any s r w = by_bits s.reads s.writes w
  where
    by_bits : (a b : Bool) → ((a && r.reads) || (b && r.writes)) ≡ true → (a || b) ≡ true
    by_bits true b w = refl
    by_bits false true w = refl
    by_bits false false w = w

dispatch_real-Ends :
    (ok : Bool) (fd : ℕ) (real : Events) (m : IoManager)
    → IsValid m
    → fd < length m.contexts
    → (real.reads ≡ true → (context_at fd m.contexts).events.reads ≡ true)
    → (real.writes ≡ true → (context_at fd m.contexts).events.writes ≡ true)
    → Ends (dispatch_real ok fd real m)
unfolding dispatch_real done has
dispatch_real-Ends ok fd real m v h sub_r sub_w =
    elim (Bool-cases (any (both (context_at fd m.contexts).events real) && ok)) [
      | inr e ↦ rw e (m, false, refl, v)
      | inl e ↦
          let s = (context_at fd m.contexts).events in
          let guard = (and-eq-true_iff (any (both s real)) ok).0 e in
          let op = mod_or_del fd (minus s real) in
          let (m', eq, c) =
            trigger_both (λ t. real.reads) (λ t. real.writes) fd (record m { log = op ∷ m.log })
              (log-IsSound m op v.sound) h sub_r sub_w in
          rw (e, eq)
            (
              m',
              true,
              refl,
              record {
                sound = c.sound;
                told =
                    told_lem fd (minus s real) op m m' v.told
                      (mod_or_del_lem fd s (minus s real) m.log
                        (watched_lem fd m v.told (both-any s real guard.0)) v.told.legal)
                      (subst (λ t. Changed fd t (record m { log = op ∷ m.log }) m')
                        (minus_lem s real) c);
              },
            )
    ]

-- In a valid manager a round of `idle` for a descriptor of the vector, for which epoll found registered
-- events or an error, ends with no failed assertion, whether epoll_ctl succeeds or not, and leaves a
-- valid manager.
pub dispatch-Ends :
    (ok error : Bool) (fd : ℕ) (found : Events) (m : IoManager)
    → IsValid m
    → fd < length m.contexts
    → (found.reads ≡ true → (context_at fd m.contexts).events.reads ≡ true)
    → (found.writes ≡ true → (context_at fd m.contexts).events.writes ≡ true)
    → Ends (dispatch ok error fd found m)
unfolding dispatch plus
dispatch-Ends ok false fd found m v h sub_r sub_w = dispatch_real-Ends ok fd found m v h sub_r sub_w
dispatch-Ends ok true fd found m v h sub_r sub_w =
    dispatch_real-Ends ok fd (plus found (context_at fd m.contexts).events) m v h
      (either found.reads (context_at fd m.contexts).events.reads sub_r)
      (either found.writes (context_at fd m.contexts).events.writes sub_w)
  where
    either : (f b : Bool) → (f ≡ true → b ≡ true) → (f || b) ≡ true → b ≡ true
    either true b sub w = sub refl
    either false b sub w = w

-- Where epoll found a descriptor readable and writable, and its READ has been deleted meanwhile while
-- WRITE is still registered, a round of `idle` in which epoll_ctl succeeds fails an assertion.
pub dispatch_deleted :
    (fd : ℕ) (m : IoManager)
    → (context_at fd m.contexts).events ≡ record { reads = false; writes = true }
    → dispatch true false fd (record { reads = true; writes = true }) m ≡ none
unfolding dispatch dispatch_real any both trigger_if trigger_at triggered has done
dispatch_deleted fd m e =
    rw
      (
        trigger_event-none read (context_at fd m.contexts) m.queue (ap (λ (s : Events). s.reads) e),
        e,
      )
      refl
