-- ===== src/IoManager/Steps.antt =====
-- kit_server/iomanager.cpp: the invariant of the manager, and each operation.
use kit_server.Common.{
  ℕ, ◌+◌, ◌%◌, ◌^◌, ◌≤◌, ◌<◌, ◌≡◌, ◌≢◌, refl, sym, ap, ◌∙◌, subst, arith, if◌then◌else◌, List, ◌∷◌,
  length, All, none, some, Bool, true, Bool-cases, inl, inr, ℕ_discrete,
}
use kit_server.Scheduler.{Task}
use kit_server.IoManager.{
  Event, read, write, Events, has, without, any, FdContext, Ctl, IoManager, context_at, put_context,
  update, triggered, trigger_at, trigger_if, increment, decrement,
}
use kit_server.IoManager.Contexts.{
  ContextOk, total, context_at-put_context, context_at-put_context_other, length-put_context,
  total-put_context, put_context-All, context_at-ContextOk, trigger_event_lem,
}
use kit_server.IoManager.Epoll.{interest, IsLegal, wanted}

-- The contexts are as they should be, and the pending count is the number of registered events.
pub record IsSound (m : IoManager) : Type 0 where
  pub contexts : All ContextOk m.contexts
  pub counted : m.pending ≡ total m.contexts % 2 ^ 64
  pub enough : 256 ≤ length m.contexts

-- Epoll watches each descriptor for exactly the registered events, and no call of epoll_ctl could fail
-- for a descriptor that is watched already or is not.
pub record IsTold (m : IoManager) : Type 0 where
  pub watched : (fd : ℕ) → interest fd m.log ≡ wanted (context_at fd m.contexts).events
  pub legal : IsLegal m.log

pub record IsValid (m : IoManager) : Type 0 where
  pub sound : IsSound m
  pub told : IsTold m

-- The next manager differs in the context of `fd` only, whose events are `s`.
pub record Changed (fd : ℕ) (s : Events) (m m' : IoManager) : Type 0 where
  pub sound : IsSound m'
  pub here : (context_at fd m'.contexts).events ≡ s
  pub others : (j : ℕ) → j ≢ fd → context_at j m'.contexts ≡ context_at j m.contexts
  pub same_size : length m'.contexts ≡ length m.contexts
  pub same_log : m'.log ≡ m.log

pub decrement_lem : (p t t' : ℕ) → p ≡ t % 2 ^ 64 → t' + 1 ≡ t → decrement p ≡ t' % 2 ^ 64
decrement_lem p t t' e h = omega arith

pub increment_lem : (p t t' : ℕ) → p ≡ t % 2 ^ 64 → t' ≡ t + 1 → increment p ≡ t' % 2 ^ 64
increment_lem p t t' e h = omega arith

-- An update of a context, with the pending count that goes with it.
pub update-IsSound :
    (fd : ℕ) (d : FdContext) (p : ℕ) (log : List Ctl) (q : List Task) (m : IoManager)
    → IsSound m
    → ContextOk d
    → fd < length m.contexts
    → p ≡ total (put_context fd d m.contexts) % 2 ^ 64
    → IsSound (update fd d (record m { pending = p; log = log; queue = q }))
update-IsSound fd d p log q m s ok h e = record {
  contexts = put_context-All fd d m.contexts ok s.contexts;
  counted = e;
  enough = omega (arith, length-put_context fd d m.contexts, s.enough);
}

pub trigger_at_lem :
    (fd : ℕ) (ev : Event) (m : IoManager)
    → IsSound m
    → fd < length m.contexts
    → has ev (context_at fd m.contexts).events ≡ true
    → (m' : IoManager) × (trigger_at fd ev m ≡ some m')
      × Changed fd (without ev (context_at fd m.contexts).events) m m'
unfolding trigger_at triggered
trigger_at_lem fd ev m s h e =
    let c = context_at fd m.contexts in
    let (r, eq, t) =
      trigger_event_lem ev c m.queue (context_at-ContextOk fd m.contexts s.contexts) e in
    let fewer : total (put_context fd r.0 m.contexts) + 1 ≡ total m.contexts =
      omega (arith, total-put_context fd r.0 m.contexts h, t.fewer) in
    (
      update fd r.0 (record m { pending = decrement m.pending; queue = r.1 }),
      rw eq refl,
      record {
        sound =
            update-IsSound fd r.0 (decrement m.pending) m.log r.1 m s t.ok h
              (decrement_lem m.pending (total m.contexts) _ s.counted fewer);
        here = ap FdContext.events (context_at-put_context fd r.0 m.contexts h) ∙ t.events;
        others = λ j n. context_at-put_context_other fd j r.0 m.contexts n;
        same_size = length-put_context fd r.0 m.contexts;
        same_log = refl;
      },
    )

-- A log that was written before the contexts were changed is true after it.
pub told_lem :
    (fd : ℕ) (s : Events) (op : Ctl) (m m' : IoManager)
    → IsTold m
    → IsLegal (op ∷ m.log)
      × (interest fd (op ∷ m.log) ≡ wanted s)
      × ((j : ℕ) → j ≢ fd → interest j (op ∷ m.log) ≡ interest j m.log)
    → Changed fd s (record m { log = op ∷ m.log }) m'
    → IsTold m'
told_lem fd s op m m' t l c = record {
  legal = subst IsLegal (sym c.same_log) l.0;
  watched = λ j. elim (ℕ_discrete j fd) [
    | yes e ↦
        subst (λ k. interest k m'.log ≡ wanted (context_at k m'.contexts).events) (sym e)
          (ap (interest fd) c.same_log ∙ l.1 ∙ ap wanted (sym c.here))
    | no n ↦
        ap (interest j) c.same_log
        ∙ l.2 j n
        ∙ t.watched j
        ∙ ap (λ x. wanted x.events) (sym (c.others j n))
  ];
}

-- The descriptor of a registered event is watched.
pub watched_lem :
    (fd : ℕ) (m : IoManager)
    → IsTold m
    → any (context_at fd m.contexts).events ≡ true
    → interest fd m.log ≡ some (context_at fd m.contexts).events
unfolding wanted
watched_lem fd m t a =
    t.watched fd ∙ ap (λ b. if b then some (context_at fd m.contexts).events else none) a

pub has-any : (ev : Event) (s : Events) → has ev s ≡ true → any s ≡ true
unfolding has any
has-any read s h = rw h refl
has-any write s h = ground (arith, h)

pub Changed-refl :
    (fd : ℕ) (m : IoManager) → IsSound m → Changed fd (context_at fd m.contexts).events m m
Changed-refl fd m s = record {
  sound = s;
  here = refl;
  others = λ j n. refl;
  same_size = refl;
  same_log = refl;
}

pub Changed-trans :
    {fd : ℕ} {s t : Events} {m m' m'' : IoManager}
    → Changed fd s m m'
    → Changed fd t m' m''
    → Changed fd t m m''
Changed-trans c d = record {
  sound = d.sound;
  here = d.here;
  others = λ j n. d.others j n ∙ c.others j n;
  same_size = d.same_size ∙ c.same_size;
  same_log = d.same_log ∙ c.same_log;
}

-- The events after `if(events & ev) triggerEvent(ev)`.
abbrev pub after_if : Bool → Event → Events → Events
after_if b ev s = if b then without ev s else s

pub trigger_if_lem :
    (p : Events → Bool) (fd : ℕ) (ev : Event) (m : IoManager)
    → IsSound m
    → fd < length m.contexts
    → (p (context_at fd m.contexts).events ≡ true → has ev (context_at fd m.contexts).events ≡ true)
    → (m' : IoManager) × (trigger_if p fd ev (some m) ≡ some m')
      × Changed fd
          (after_if (p (context_at fd m.contexts).events) ev (context_at fd m.contexts).events)
          m
          m'
unfolding trigger_if
trigger_if_lem p fd ev m s h sub = elim (Bool-cases (p (context_at fd m.contexts).events)) [
  | inl e ↦ rw e (trigger_at_lem fd ev m s h (sub e))
  | inr e ↦ rw e (m, refl, Changed-refl fd m s)
]

-- What was written to the log, and a change of the contexts that is in keeping with it.
pub Changed-IsValid :
    (fd : ℕ) (s : Events) (op : Ctl) (m m' : IoManager)
    → IsTold m
    → IsLegal (op ∷ m.log)
      × (interest fd (op ∷ m.log) ≡ wanted s)
      × ((j : ℕ) → j ≢ fd → interest j (op ∷ m.log) ≡ interest j m.log)
    → Changed fd s (record m { log = op ∷ m.log }) m'
    → IsValid m'
Changed-IsValid fd s op m m' t l c = record { sound = c.sound; told = told_lem fd s op m m' t l c }
