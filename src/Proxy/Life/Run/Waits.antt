-- ===== src/Proxy/Life/Run/Waits.antt =====
-- When `run` and a group return.
use forwarder.Base.{
  ℕ, suc, ◌+◌, ◌≡◌, ◌≢◌, refl, sym, ◌∙◌, ◌⊎◌, Bool, true, false, Option, none, some, List, [], ◌∷◌,
  if◌then◌else◌, arith,
}
use forwarder.Proxy.Life.Run.{
  RunError, canceled, or_first, RunState, Deed, close_listeners, shut_down, close_connections,
  close_idle, Stopping, waits, closed_listeners, shutdown_failed, shut_down_or_closed, has_stopped,
  ContextGroup, done_after, GroupStep, signal, watcher_returns, function_returns, GroupRun, launch,
  proceed,
}

-- How many goroutines a flag stands for.
abbrev pub one_if : Bool → ℕ
one_if true = 1
one_if false = 0

abbrev pub one_unless : Bool → ℕ
one_unless true = 0
one_unless false = 1

none_pending : (b : Bool) (k : ℕ) → one_if b + k ≡ 0 → (b ≡ false) × (k ≡ 0)
none_pending true k h = absurd (omega arith)
none_pending false k h = (refl, omega arith)

-- What the first goroutine has done when it is so far.
abbrev pub Done : Stopping → List Deed → Type 0
Done waits ds = ds ≡ []
Done closed_listeners ds = ds ≡ close_listeners ∷ []
Done shutdown_failed ds = ds ≡ close_listeners ∷ shut_down ∷ []
Done shut_down_or_closed ds =
    (ds ≡ close_listeners ∷ shut_down ∷ [])
    ⊎ (ds ≡ close_listeners ∷ shut_down ∷ close_connections ∷ [])
Done has_stopped ds =
    (rest : List Deed) × ((rest ≡ []) ⊎ (rest ≡ close_idle ∷ []))
    × ((ds ≡ close_listeners ∷ shut_down ∷ rest)
        ⊎ (ds ≡ close_listeners ∷ shut_down ∷ close_connections ∷ rest))

abbrev pub is_over : Stopping → Bool
is_over waits = false
is_over closed_listeners = false
is_over shutdown_failed = false
is_over shut_down_or_closed = false
is_over has_stopped = true

abbrev pub has_begun : Stopping → Bool
has_begun waits = false
has_begun closed_listeners = true
has_begun shutdown_failed = true
has_begun shut_down_or_closed = true
has_begun has_stopped = true

over : (p : Stopping) → is_over p ≡ true → p ≡ has_stopped
over waits h = cc
over closed_listeners h = cc
over shutdown_failed h = cc
over shut_down_or_closed h = cc
over has_stopped h = refl

module _ {E : Type 0} where
  -- The error of the group: that of the context when the first goroutine has returned, or the first one of serving.
  abbrev pub ErrorIs : Bool → List (RunError E) → Option (RunError E) → Type 0
  ErrorIs over faults first =
      ((first ≡ none) × (faults ≡ []) × (over ≡ false))
      ⊎ (((first ≡ some canceled) × (over ≡ true))
          ⊎ ((e : RunError E) × (es : List (RunError E)) × (faults ≡ e ∷ es) × (first ≡ some e)))

  -- The goroutines that are waited for are those that have not returned, and the first one stops the proxy in order, once, when the
  -- context is done.
  pub record RunSound (s : RunState E) : Type 0 where
    pub counted : s.group.pending ≡ one_unless (is_over s.phase) + s.serving
    pub not_before : has_begun s.phase ≡ true → s.is_done ≡ true
    pub in_order : Done s.phase s.deeds
    pub error : ErrorIs (is_over s.phase) s.faults s.group.first

  pub record GroupSound (notify : Bool) (s : ContextGroup E) : Type 0 where
    pub counted : s.group.pending ≡ one_if s.watches + s.functions
    pub watched : notify ≡ true → s.watches ≡ false → s.is_done ≡ true
    pub failed : s.group.first ≢ none → s.is_done ≡ true

  failed_after :
      (o e : Option (RunError E)) (d : Bool)
      → (o ≢ none → d ≡ true)
      → or_first o e ≢ none
      → done_after d e ≡ true
  failed_after none none d h k = absurd (k refl)
  failed_after none (some e) d h k = refl
  failed_after (some x) none d h k = h k
  failed_after (some x) (some e) d h k = refl

  done_after-keeps : (e : Option (RunError E)) (d : Bool) → d ≡ true → done_after d e ≡ true
  done_after-keeps none d h = h
  done_after-keeps (some e) d h = refl

  or_first-none : (o : Option (RunError E)) → or_first o none ≡ o
  or_first-none none = refl
  or_first-none (some e) = refl

  GroupStep-GroupSound :
      {notify : Bool} {s t : ContextGroup E}
      → GroupStep s t
      → GroupSound notify s
      → GroupSound notify t
  GroupStep-GroupSound signal h = record {
    counted = h.counted;
    watched = λ k l. refl;
    failed = λ k. refl;
  }
  GroupStep-GroupSound {s = s} (watcher_returns w d) h = record {
    counted = let c = h.counted in ground (arith, w);
    watched = λ k l. d;
    failed = λ k. d;
  }
  GroupStep-GroupSound {s = s} (function_returns e n) h = record {
    counted = let c = h.counted in omega arith;
    watched = λ k l. done_after-keeps e s.is_done (h.watched k l);
    failed = λ k. failed_after s.group.first e s.is_done h.failed k;
  }

  GroupRun-GroupSound :
      {notify : Bool} {n : ℕ} {s : ContextGroup E} → GroupRun notify n s → GroupSound notify s
  GroupRun-GroupSound {notify} {n} launch = record {
    counted = counted_at notify;
    watched = λ k l. absurd (differ k l);
    failed = λ k. absurd (k refl);
  }
    where
      counted_at : (b : Bool) → (if b then suc n else n) ≡ one_if b + n
      counted_at true = omega arith
      counted_at false = omega arith

      differ : notify ≡ true → notify ≡ false → ⊥
      differ k l = cc
  GroupRun-GroupSound (proceed r st) = GroupStep-GroupSound st (GroupRun-GroupSound r)

  -- A group that listens to signals returns only when all its functions have, and never before a signal came, its
  -- context was cancelled or a function failed, even with no functions at all.
  pub group_returned :
      {n : ℕ} {s : ContextGroup E}
      → GroupRun true n s
      → s.group.pending ≡ 0
      → (s.functions ≡ 0) × (s.is_done ≡ true)
  group_returned {n} {s} r h =
      let sound = GroupRun-GroupSound r in
      let (w, k) = none_pending s.watches s.functions (sym sound.counted ∙ h) in
      (k, sound.watched refl w)
