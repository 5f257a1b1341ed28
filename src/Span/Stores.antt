-- ===== src/Span/Stores.antt =====
-- The calls that threads have stored, in the order of the stores, against the span of
-- mocktracer/src/mock_span.cpp.
use mathlib.Core.List.{Perm, perm_middle, perm_append_singleton}
use mathlib.Core.List.Perm
use opentracing_cpp.Base.{
  ◌+◌, ◌≤◌, ◌≡◌, refl, sym, ap, ◌∙◌, List, All, All-append, All-split, [], ◌∷◌, ◌++◌, arith, count,
  count_at, flat, flat-append,
}
use opentracing_cpp.Span.{MockSpan}
use opentracing_cpp.Span.Threads.{
  changed, asking, reading, found, answered, Setter, mutex_of, apply, apply_all, merge, Thread,
  waiting, holding, loaded, stored, returned, finishing, claimed, copying, copied, finished, Shared,
  State,
}
use opentracing_cpp.Span.Fresh.{Fresh, merge-apply, All-Fresh-merge}
use opentracing_cpp.Span.Exclusion.{same_refl, holds, IsExclusive}

-- The call of a thread, and the call of a thread that has stored.
abbrev pub call_of : Thread → List Setter
call_of (waiting c) = c ∷ []
call_of (holding c) = c ∷ []
call_of (loaded c copy) = c ∷ []
call_of (stored c) = c ∷ []
call_of (returned c) = c ∷ []
call_of (finishing now options) = []
call_of (claimed now options) = []
call_of copying = []
call_of copied = []
call_of finished = []
call_of changed = []
call_of (asking key) = []
call_of (reading key) = []
call_of (found key value) = []
call_of (answered key value) = []

abbrev pub done_by : Thread → List Setter
done_by (waiting c) = []
done_by (holding c) = []
done_by (loaded c copy) = []
done_by (stored c) = c ∷ []
done_by (returned c) = c ∷ []
done_by (finishing now options) = []
done_by (claimed now options) = []
done_by copying = []
done_by copied = []
done_by finished = []
done_by changed = []
done_by (asking key) = []
done_by (reading key) = []
done_by (found key value) = []
done_by (answered key value) = []

apply_all-append :
    (calls : List Setter) (c : Setter) (span : MockSpan)
    → apply_all (calls ++ c ∷ []) span ≡ apply c (apply_all calls span)
unfolding apply_all
apply_all-append [] c span = refl
apply_all-append (d ∷ calls) c span = apply_all-append calls c (apply d span)

-- The span is what the calls that have stored make of it, one after the other in some order.
pub record Linear (span0 : MockSpan) (setters : List Setter) (s : State) : Type 0 where
  pub fresh : All (Fresh s.shared.span) s.threads
  pub order : List Setter
  pub made : s.shared.span ≡ apply_all order span0
  pub done : Perm order (flat done_by s.threads)
  pub calls : flat call_of s.threads ≡ setters

flat_at :
    (f : Thread → List Setter) (threads before after : List Thread) (p q : Thread)
    → threads ≡ before ++ p ∷ after
    → f q ≡ f p
    → flat f (before ++ q ∷ after) ≡ flat f threads
flat_at f threads before after p q e same_call =
    rw (flat-append f before (q ∷ after), same_call)
      (sym (ap (flat f) e ∙ flat-append f before (p ∷ after)))

pub Linear-Fresh :
    {span0 : MockSpan} {setters : List Setter} {s : State} (before after : List Thread) (p : Thread)
    → Linear span0 setters s
    → s.threads ≡ before ++ p ∷ after
    → Fresh s.shared.span p
Linear-Fresh {s = s} before after p lin e =
    (All-split (Fresh s.shared.span) before (p ∷ after) (rw e at lin.fresh)).1.0

-- A step that leaves the span and what is done.
pub quiet-Linear :
    {span0 : MockSpan} {setters : List Setter} {s : State} (before after : List Thread)
    (p q : Thread) (m : Shared)
    → Linear span0 setters s
    → s.threads ≡ before ++ p ∷ after
    → m.span ≡ s.shared.span
    → (Fresh s.shared.span p → Fresh s.shared.span q)
    → call_of q ≡ call_of p
    → done_by q ≡ done_by p
    → Linear span0 setters (record { shared = m; threads = before ++ q ∷ after })
quiet-Linear {s = s} before after p q m lin e es fq ec ed =
    let (hb, (hp, ha)) = All-split (Fresh s.shared.span) before (p ∷ after) (rw e at lin.fresh) in
    record {
      fresh = rw es (All-append (Fresh s.shared.span) before (q ∷ after) hb (fq hp, ha));
      order = lin.order;
      made = es ∙ lin.made;
      done = rw (flat_at done_by s.threads before after p q e ed) lin.done;
      calls = flat_at call_of s.threads before after p q e ec ∙ lin.calls;
    }

store_perm :
    (c : Setter) (order before after : List Setter)
    → Perm order (before ++ after)
    → Perm (order ++ c ∷ []) (before ++ c ∷ after)
store_perm c order before after h =
    Perm.trans (perm_append_singleton c order)
      (Perm.trans (Perm.cons c h) (Perm.symm (perm_middle before after)))

pub store-Linear :
    {span0 : MockSpan} {setters : List Setter} {s : State} (before after : List Thread) (c : Setter)
    (copy : MockSpan)
    → Linear span0 setters s
    → IsExclusive s
    → s.threads ≡ before ++ loaded c copy ∷ after
    → Linear span0 setters (record {
      shared = record s.shared { span = merge (mutex_of c) (apply c copy) s.shared.span };
      threads = before ++ stored c ∷ after;
    })
store-Linear {span0} {setters} {s} before after c copy lin ex e =
    let k = mutex_of c in
    let (hb, (hp, ha)) =
      All-split (Fresh s.shared.span) before (loaded c copy ∷ after) (rw e at lin.fresh) in
    let fresh_copy : merge k copy s.shared.span ≡ s.shared.span = unfold Fresh in hp in
    let alone : count (holds k) before + (holds k (loaded c copy) + count (holds k) after) ≤ 1 =
      ground (arith, ex k, count_at (holds k) s.threads before after (loaded c copy) e) in
    let mine : holds k (loaded c copy) ≡ 1 = ground (arith, same_refl k) in
    record {
      fresh =
          All-append (Fresh (merge k (apply c copy) s.shared.span)) before (stored c ∷ after)
            (All-Fresh-merge k (apply c copy) s.shared.span before (omega (arith, alone, mine)) hb)
            (
              unfold Fresh in tt,
              All-Fresh-merge k (apply c copy) s.shared.span after (omega (arith, alone, mine)) ha,
            );
      order = lin.order ++ c ∷ [];
      made =
          merge-apply c copy s.shared.span fresh_copy
          ∙ ap (apply c) lin.made
          ∙ sym (apply_all-append lin.order c span0);
      done = rw (flat-append done_by before (stored c ∷ after)) (
          store_perm c lin.order (flat done_by before) (flat done_by after) (
            rw (ap (flat done_by) e ∙ flat-append done_by before (loaded c copy ∷ after)) at
              lin.done));
      calls = flat_at call_of s.threads before after (loaded c copy) (stored c) e refl ∙ lin.calls;
    }
