-- ===== src/SegmentBuilder/Session.antt =====
-- The builder of worker/src/vw_segment_builder.c over a whole session: hypotheses are pushed and
-- cues popped in any order.
use mathlib.Core.Path.{subst}
use mathlib.Core.Option.{some-injective}
use vlc_whisper.Common.{
  ℕ, ◌≡◌, inl, inr, refl, ap, sym, ◌∙◌, true, none, some, List, [], ◌∷◌, ◌++◌, append_assoc,
  append-nil, arith, length, length-replicate,
}
use vlc_whisper.Common.Int.{ℤ, negsuc, ◌≤ℤ◌, ◌<ℤ◌}
use vlc_whisper.Protocol.Types.{Pointer}
use vlc_whisper.SegmentBuilder.{
  Builder, Cue, blank_cue, blank_entry, create, clear, get_last_segment, forget_texts,
}
use vlc_whisper.SegmentBuilder.Push.{Heaps, push_hypothesis, pop}
use vlc_whisper.SegmentBuilder.Pending.{popped, first_cue, pop_cases, popped-IsValid}
use vlc_whisper.SegmentBuilder.Pending.Growth.{IsValid, pending}
use vlc_whisper.SegmentBuilder.Effect.{push-Queues}
use vlc_whisper.SegmentBuilder.NewAudio.{IsBehind}
use vlc_whisper.SegmentBuilder.Behind.{push-IsBehind, popped-IsBehind, clear-IsBehind}

pub data Call : Type 0 where
  pushes : Heaps → Pointer → ℤ → ℤ → Call
  pops : Call

-- The cues that the pops of a session return, in order, and the builder after it.
unfoldable pub session : Builder → List Call → List Cue × Builder
unfolding push_hypothesis pop
session b [] = ([], b)
session b (pushes heaps text start end ∷ calls) =
    let (queued, b') = push_hypothesis heaps b text start end in session b' calls
session b (pops ∷ calls) = elim (pop b) [
  | none ↦ session b calls
  | some (cue, b') ↦ let (out, after) = session b' calls in (cue ∷ out, after)
]

-- Cues that each last for some time and whose ends rise from `low` to `high`.
abbrev pub Timeline : ℤ → List Cue → ℤ → Type 0
Timeline low [] high = low ≤ℤ high
Timeline low (c ∷ cs) high =
    (c.start_pts_us <ℤ c.end_pts_us) × (low <ℤ c.end_pts_us) × Timeline c.end_pts_us cs high

Timeline-snoc :
    (low : ℤ) (cs : List Cue) (high : ℤ) (c : Cue)
    → Timeline low cs high
    → high <ℤ c.end_pts_us
    → c.start_pts_us <ℤ c.end_pts_us
    → Timeline low (cs ++ (c ∷ [])) c.end_pts_us
Timeline-snoc low [] high c t later lasts = (lasts, omega arith, omega arith)
Timeline-snoc low (d ∷ ds) high c (lasts_d, later_d, t) later lasts =
    (lasts_d, later_d, Timeline-snoc d.end_pts_us ds high c t later lasts)

-- The state of a session that has returned the cues `out`.
record Running (low : ℤ) (out : List Cue) (b : Builder) : Type 0 where
  valid : IsValid b
  behind : IsBehind b
  timed : Timeline low (out ++ pending b) b.covered_end_us

push-Running :
    (low : ℤ) (out : List Cue) (b : Builder) (heaps : Heaps) (text : List ℕ) (start end : ℤ)
    → Running low out b
    → Running low out (push_hypothesis heaps b (some text) start end).1
push-Running low out b heaps text start end run =
    elim (push-Queues heaps b text start end run.valid) [
      | inl refused ↦ subst (λ r. Running low out r.1) (sym refused) run
      | inr q ↦ record {
        valid = q.valid;
        behind = push-IsBehind heaps b text start end run.valid run.behind;
        timed =
            let after = push_hypothesis heaps b (some text) start end in
            subst (λ cs. Timeline low cs after.1.covered_end_us)
              (append_assoc out (pending b) (q.cue ∷ []) ∙ ap (λ cs. out ++ cs) (sym q.appended))
              (subst (Timeline low ((out ++ pending b) ++ (q.cue ∷ [])))
                (q.end_kept ∙ sym q.covered)
                (Timeline-snoc low (out ++ pending b) b.covered_end_us q.cue run.timed
                  (subst (λ e. b.covered_end_us <ℤ e) (sym q.end_kept) q.later) q.lasts));
      }
    ]

pop-Running :
    (low : ℤ) (out : List Cue) (b : Builder) (cue : Cue)
    → Running low out b
    → pending b ≡ cue ∷ pending (popped b)
    → Running low (out ++ (cue ∷ [])) (popped b)
pop-Running low out b cue run e = record {
  valid = popped-IsValid b run.valid;
  behind = popped-IsBehind b run.valid run.behind;
  timed =
      subst (λ cs. Timeline low cs b.covered_end_us)
        (ap (λ cs. out ++ cs) e ∙ sym (append_assoc out (cue ∷ []) (pending (popped b)))) run.timed;
}

session-Running :
    (low : ℤ) (out : List Cue) (b : Builder) (calls : List Call)
    → Running low out b
    → let (more, after) = session b calls in Running low (out ++ more) after
unfolding session
session-Running low out b [] run = subst (λ cs. Running low cs b) (sym (append-nil out)) run
session-Running low out b (pushes heaps none start end ∷ calls) run =
    session-Running low out b calls run
session-Running low out b (pushes heaps (some text) start end ∷ calls) run =
    session-Running low out (push_hypothesis heaps b (some text) start end).1 calls
      (push-Running low out b heaps text start end run)
session-Running low out b (pops ∷ calls) run = elim (pop_cases b run.valid) [
  | inl (nothing, e) ↦ rw (nothing, session) (session-Running low out b calls run)
  | inr (something, e) ↦
      rw (something, session)
        (let (more, after) = session (popped b) calls in
          subst (λ cs. Running low cs after) (append_assoc out (first_cue b ∷ []) more)
            (session-Running low (out ++ (first_cue b ∷ [])) (popped b) calls
              (pop-Running low out b (first_cue b) run e)))
]

-- A builder without cues: a new one, or one that was cleared.
pub record IsFresh (b : Builder) : Type 0 where
  pub valid : IsValid b
  pub behind : IsBehind b
  pub nothing_pending : pending b ≡ []
  pub nothing_covered : b.covered_end_us ≡ negsuc 0

-- In a session of pushes and pops in any order from a fresh builder, the cues that were popped,
-- followed by those still pending, each start before they end, and their ends strictly rise, up to
-- the end of the captioned audio. The builder stays valid, and all that it compares phrases with
-- stays within the captioned audio.
pub session-Timeline :
    (b : Builder) (calls : List Call)
    → IsFresh b
    → let (out, after) = session b calls in
      Timeline (negsuc 0) (out ++ pending after) after.covered_end_us
      × IsValid after
      × IsBehind after
session-Timeline b calls fresh =
    let start : Running (negsuc 0) [] b = record {
      valid = fresh.valid;
      behind = fresh.behind;
      timed = rw (fresh.nothing_pending, fresh.nothing_covered) (omega arith);
    } in
    let run = session-Running (negsuc 0) [] b calls start in (run.timed, run.valid, run.behind)

length-forget_texts : (cs : List Cue) → length (forget_texts cs) ≡ length cs
unfolding forget_texts
length-forget_texts [] = refl
length-forget_texts (c ∷ cs) = omega (arith, length-forget_texts cs)

-- A builder that was cleared is fresh, and so is a new one.
pub clear-IsFresh : (b : Builder) → IsValid b → IsFresh (clear b)
unfolding clear pending
clear-IsFresh b v = record {
  behind = clear-IsBehind b;
  valid = ground (arith, length-forget_texts b.segment_queue, length-replicate 16 blank_entry);
  nothing_pending = refl;
  nothing_covered = refl;
}

pub create-IsFresh : (b : Builder) → create true true ≡ some b → IsFresh b
unfolding create pending get_last_segment
create-IsFresh b e = subst IsFresh (some-injective _ _ e) record {
  valid = record {
    some_room = omega arith;
    size = length-replicate 32 blank_cue;
    head_inside = omega arith;
    fits = omega arith;
    history_size = length-replicate 16 blank_entry;
    history_inside = omega arith;
    history_fits = omega arith;
  };
  behind = record {
    last_cue = λ last nothing. ground arith;
    entries = λ i lt. absurd (omega arith);
  };
  nothing_pending = refl;
  nothing_covered = refl;
}
