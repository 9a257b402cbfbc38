-- ===== src/Server/Flow/Conserved.antt =====
-- No buffer of the server is lost or handed out twice, and the worker finds a buffer for its
-- response as long as not all are being sent.
use nvds.Base.{
  ℕ, ◌+◌, ◌<◌, ◌≡◌, refl, ◌∙◌, subst, arith, Option, none, some, List, [], ◌∷◌, ◌++◌, ◌==◌,
  if◌then◌else◌, length,
}
use nvds.Server.Flow.{
  Flow, post_receive, take_work, Step, receive, sent, post, take, respond_to, Steps, stop,
  step_then,
}

-- Each buffer has a weight: 1 for one buffer and 0 for the others counts it, 1 for all counts them
-- all.
abbrev pub weigh : (ℕ → ℕ) → List ℕ → ℕ
weigh m [] = 0
weigh m (x ∷ xs) = m x + weigh m xs

abbrev pub only : ℕ → ℕ → ℕ
only b x = if x == b then 1 else 0

abbrev pub request_of : (ℕ → ℕ) → Option (ℕ × ℕ) → ℕ
request_of m none = 0
request_of m (some (w, s)) = m w

abbrev pub response_of : (ℕ → ℕ) → Option (ℕ × ℕ) → ℕ
response_of m none = 0
response_of m (some (w, s)) = m s

-- The weight of all buffers for requests, wherever they are, and of those for responses
abbrev pub held_recv : (ℕ → ℕ) → Flow → ℕ
held_recv m f = weigh m f.recv_free + weigh m f.posted + weigh m f.work + request_of m f.serving

abbrev pub held_send : (ℕ → ℕ) → Flow → ℕ
held_send m f = weigh m f.send_free + weigh m f.sending + response_of m f.serving

weigh-append : (m : ℕ → ℕ) (xs ys : List ℕ) → weigh m (xs ++ ys) ≡ weigh m xs + weigh m ys
weigh-append m [] ys = omega arith
weigh-append m (x ∷ xs) ys = omega (arith, weigh-append m xs ys)

-- The two weights agree.
pub record Same (m : ℕ → ℕ) (f g : Flow) : Type 0 where
  pub recv : held_recv m g ≡ held_recv m f
  pub send : held_send m g ≡ held_send m f

Same-post : (m : ℕ → ℕ) (f g : Flow) → post_receive f ≡ some g → Same m f g
Same-post m f g e = at f.recv_free refl e
  where
    at :
        (free : List ℕ)
        → f.recv_free ≡ free
        → (elim free [
          | [] ↦ none
          | x ∷ xs ↦ some (record f { recv_free = xs; posted = x ∷ f.posted })
        ])
          ≡ some g
        → Same m f g
    at [] k h = cc
    at (x ∷ xs) k h =
        let result : record f { recv_free = xs; posted = x ∷ f.posted } ≡ g = cc in
        subst (Same m f) result (record { recv = rw k (ground arith); send = refl })

Same-take : (m : ℕ → ℕ) (f g : Flow) → f.serving ≡ none → take_work f ≡ some g → Same m f g
unfolding take_work
Same-take m f g idle e = at f.work f.send_free refl refl e
  where
    at :
        (work free : List ℕ)
        → f.work ≡ work
        → f.send_free ≡ free
        → (elim work [
          | [] ↦ some f
          | w ∷ ws ↦ elim free [
            | [] ↦ none
            | x ∷ xs ↦ some (record f { work = ws; send_free = xs; serving = some (w, x) })
          ]
        ])
          ≡ some g
        → Same m f g
    at [] free k l h =
        let result : f ≡ g = cc in subst (Same m f) result (record { recv = refl; send = refl })
    at (w ∷ ws) [] k l h = cc
    at (w ∷ ws) (x ∷ xs) k l h =
        let result : record f { work = ws; send_free = xs; serving = some (w, x) } ≡ g = cc in
        subst (Same m f) result
          (record { recv = rw (k, idle) (ground arith); send = rw (l, idle) (ground arith) })

Same-step : (m : ℕ → ℕ) {f g : Flow} → Step f g → Same m f g
Same-step m (receive {f} x before after e) = record {
  recv =
      rw
        (
          e,
          weigh-append m f.work (x ∷ []),
          weigh-append m before after,
          weigh-append m before (x ∷ after),
        )
        (ground arith);
  send = refl;
}
Same-step m (sent {f} x before after e) = record {
  recv = refl;
  send = rw (e, weigh-append m before after, weigh-append m before (x ∷ after)) (ground arith);
}
Same-step m (post {f} {g} e) = Same-post m f g e
Same-step m (take {f} {g} idle e) = Same-take m f g idle e
Same-step m (respond_to {f} w x e) = record {
  recv = rw e (ground arith);
  send = rw e (ground arith);
}

Steps-weight : (m : ℕ → ℕ) {f g : Flow} → Steps f g → Same m f g
Steps-weight m stop = record { recv = refl; send = refl }
Steps-weight m (step_then s t) =
    let first = Same-step m s in
    let rest = Steps-weight m t in
    record { recv = rest.recv ∙ first.recv; send = rest.send ∙ first.send }

-- However the poller and the worker take turns: a buffer for requests is held (in the pool, by the
-- queue pair, in the work queue, by the worker) exactly as often as it was at the start, and so is a
-- buffer for responses; so what was in the pools once is neither lost nor in two places.
pub Steps-Same :
    {f g : Flow} (b : ℕ)
    → Steps f g
    → (held_recv (only b) g ≡ held_recv (only b) f) × (held_send (only b) g ≡ held_send (only b) f)
Steps-Same b s = let same = Steps-weight (only b) s in (same.recv, same.send)

abbrev all_one : ℕ → ℕ
all_one x = 1

weigh-all_one : (xs : List ℕ) → weigh all_one xs ≡ length xs
weigh-all_one [] = refl
weigh-all_one (x ∷ xs) = omega (arith, weigh-all_one xs)

some_free :
    (f : Flow) (work free : List ℕ)
    → f.work ≡ work
    → f.send_free ≡ free
    → 0 < length free
    → (g : Flow) × (take_work f ≡ some g)
unfolding take_work
some_free f [] free k l h = (f, rw k refl)
some_free f (w ∷ ws) [] k l h = absurd (omega arith)
some_free f (w ∷ ws) (x ∷ xs) k l h =
    (record f { work = ws; send_free = xs; serving = some (w, x) }, rw (k, l) refl)

-- From a start at which the worker is idle and nothing is being sent, as long as fewer responses are
-- being sent than the send pool had buffers, an idle worker finds a buffer for its response: the
-- assertion in `Serve` cannot fail.
pub take_work-Steps :
    {f g : Flow}
    → Steps f g
    → f.serving ≡ none
    → f.sending ≡ []
    → g.serving ≡ none
    → length g.sending < length f.send_free
    → (h : Flow) × (take_work g ≡ some h)
take_work-Steps {f} {g} s idle quiet idle' fewer =
    let kept : held_send all_one g ≡ held_send all_one f = (Steps-weight all_one s).send in
    let left : weigh all_one g.send_free + weigh all_one g.sending + 0
        ≡ weigh all_one f.send_free + 0 + 0 =
      rw (idle, quiet, idle') at kept in
    some_free g g.work g.send_free refl refl (
      omega (
        arith,
        left,
        weigh-all_one g.send_free,
        weigh-all_one g.sending,
        weigh-all_one f.send_free,
      ))
