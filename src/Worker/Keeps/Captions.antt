-- ===== src/Worker/Keeps/Captions.antt =====
-- That the captions which leave the worker are those of its session: vw_worker_deliver_translation,
-- vw_worker_emit_tail_segments and the loops of worker/src/vw_worker.c.
use vlc_whisper.Common.{
  ℕ, zero, suc, ◌≡◌, refl, sym, ◌∙◌, Bool, true, ◌&&◌, ◌||◌, not, Option, none, some, List, [], ◌∷◌,
  arith, if◌then◌else◌, pick,
}
use vlc_whisper.Protocol.Types.{CaptionSegment}
use vlc_whisper.SegmentBuilder.{Cue, Builder}
use vlc_whisper.SegmentBuilder.Push.{pop}
use vlc_whisper.TranslateAsync.{Result, result_capacity}
use vlc_whisper.TranslateAsync.Step.{try_deliver}
use vlc_whisper.TranslateAsync.Bounds.{Pool}
use vlc_whisper.Worker.Run.{send_caption_segment}
use vlc_whisper.Worker.Run.State.{Run, Host, Progress, same_bytes}
use vlc_whisper.Worker.Captions.{
  segment_of, attempted, has_text, deliver_translation, deliver_taken, deliver_one, deliver_next,
  deliver_all, let_work, deliver_results, is_pending, drain_translation, submit_to, submit_segment,
  emit_tail_segment, emit_tail_popped, emit_tail_segments, tries_translation, emit_segment,
  emit_popped, emit_segments,
}
use vlc_whisper.Worker.Keeps.{
  Keeps, Keeps-same, Keeps-then, or_fail-Keeps, send_caption_segment-Keeps,
}

pub same_bytes-eq : (xs ys : List ℕ) → same_bytes xs ys ≡ true → xs ≡ ys
unfolding same_bytes
same_bytes-eq [] [] e = refl
same_bytes-eq [] (y ∷ ys) e = ground arith
same_bytes-eq (x ∷ xs) [] e = ground arith
same_bytes-eq (x ∷ xs) (y ∷ ys) e =
    let rest : xs ≡ ys = same_bytes-eq xs ys (ground arith) in
    let head : x ≡ y = ground arith in rw (head, rest) refl

deliver_translation-Keeps :
    (s : List ℕ) (t : Result) (host : Host) (w : Run) → Keeps s w (deliver_translation t host w)
unfolding deliver_translation
deliver_translation-Keeps s t host w =
    pick (λ x. Keeps s w x)
      (not w.session_active || not (same_bytes t.segment.session_id w.session_id))
      (λ foreign. Keeps-same s w)
      (λ own. or_fail-Keeps s w _ (
        send_caption_segment-Keeps s t.segment host w
          (λ e. same_bytes-eq t.segment.session_id w.session_id (ground arith) ∙ e)))

with_translator-Keeps :
    (s : List ℕ) (w u : Run) (translator : Option Pool)
    → Keeps s record w { translator = translator } u
    → Keeps s w u
unfolding Keeps
with_translator-Keeps s w u translator k = k

deliver_taken-Keeps :
    (s : List ℕ) (o : Option Result) (host : Host) (w : Run) → Keeps s w (deliver_taken o host w).1
unfolding deliver_taken
deliver_taken-Keeps s none host w = Keeps-same s w
deliver_taken-Keeps s (some t) host w = deliver_translation-Keeps s t host w

deliver_next-Keeps :
    (s : List ℕ) (o : Option Pool) (host : Host) (w : Run) → Keeps s w (deliver_next o host w).1
unfolding deliver_next deliver_one
deliver_next-Keeps s none host w = Keeps-same s w
deliver_next-Keeps s (some p) host w =
    with_translator-Keeps s w _ (some record p { async = (try_deliver p.async).1 })
      (deliver_taken-Keeps s (try_deliver p.async).0 host _)

deliver_all-Keeps :
    (s : List ℕ) (fuel : ℕ) (host : Host) (w : Run) → Keeps s w (deliver_all fuel host w)
unfolding deliver_all
deliver_all-Keeps s zero host w = Keeps-same s w
deliver_all-Keeps s (suc fuel) host w =
    let step = deliver_next w.translator host w in
    let first = deliver_next-Keeps s w.translator host w in
    pick (λ x. Keeps s w x) step.0
      (λ again. Keeps-then s w step.1 _ first (deliver_all-Keeps s fuel host step.1))
      (λ stops. first)

let_work-Keeps :
    (s : List ℕ) (progress : List Progress) (w u : Run)
    → Keeps s w u
    → Keeps s w (let_work progress u)
unfolding let_work Keeps
let_work-Keeps s progress w u k = k

pub deliver_results-Keeps :
    (s : List ℕ) (progress : List Progress) (host : Host) (w : Run)
    → Keeps s w (deliver_results progress host w)
unfolding deliver_results
deliver_results-Keeps s progress host w =
    Keeps-then s w (let_work progress w) _ (let_work-Keeps s progress w w (Keeps-same s w))
      (deliver_all-Keeps s (suc result_capacity) host (let_work progress w))

pub drain_translation-Keeps :
    (s : List ℕ) (waits : List (List Progress)) (host : Host) (w : Run)
    → Keeps s w (drain_translation waits host w)
unfolding drain_translation
drain_translation-Keeps s [] host w = Keeps-same s w
drain_translation-Keeps s (progress ∷ later) host w =
    let step = deliver_next w.translator host w in
    let next = if step.0 then step.1 else let_work progress step.1 in
    let first = deliver_next-Keeps s w.translator host w in
    pick (λ x. Keeps s w x) (w.running && is_pending w.translator)
      (λ waiting.
        Keeps-then s w next _
          (pick (λ x. Keeps s w x) step.0 (λ went. first)
            (λ slept. let_work-Keeps s progress w step.1 first))
          (drain_translation-Keeps s later host next))
      (λ done. Keeps-same s w)

submit_to-Keeps :
    (s : List ℕ) (c : CaptionSegment) (w : Run) (o : Option Pool) → Keeps s w (submit_to c w o).1
unfolding submit_to
submit_to-Keeps s c w none = Keeps-same s w
submit_to-Keeps s c w (some p) =
    pick {A = Bool × Run} (λ r. Keeps s w r.1) (w.translate_enabled && has_text c.text_utf8)
      (λ tried. with_translator-Keeps s w _ _ (Keeps-same s _)) (λ untried. Keeps-same s w)

submit_to-session_id :
    (c : CaptionSegment) (w : Run) (o : Option Pool) → (submit_to c w o).1.session_id ≡ w.session_id
unfolding submit_to
submit_to-session_id c w none = refl
submit_to-session_id c w (some p) =
    pick {A = Bool × Run} (λ r. r.1.session_id ≡ w.session_id)
      (w.translate_enabled && has_text c.text_utf8) (λ tried. refl) (λ untried. refl)

-- A segment that the translator does not take is sent.
sent-Keeps :
    (s : List ℕ) (c : CaptionSegment) (b : Bool) (host : Host) (w : Run)
    → c.session_id ≡ w.session_id
    → Keeps s w (send_caption_segment (attempted b c) host (submit_segment c w).1).1
unfolding submit_segment
sent-Keeps s c b host w own =
    let submitted = (submit_to c w w.translator).1 in
    Keeps-then s w submitted _ (submit_to-Keeps s c w w.translator) (
      send_caption_segment-Keeps s (attempted b c) host submitted
        (λ e. own ∙ sym (submit_to-session_id c w w.translator) ∙ e))

emit_tail_segment-Keeps :
    (s : List ℕ) (c : CaptionSegment) (host : Host) (w : Run)
    → c.session_id ≡ w.session_id
    → Keeps s w (emit_tail_segment c host w).1
unfolding emit_tail_segment
emit_tail_segment-Keeps s c host w own =
    pick {A = Bool × Run} (λ r. Keeps s w r.1) (submit_segment c w).0
      (λ taken. unfold submit_segment in submit_to-Keeps s c w w.translator)
      (λ refused. sent-Keeps s c w.translate_enabled host w own)

with_builder-Keeps :
    (s : List ℕ) (w u : Run) (b : Builder) → Keeps s record w { builder = b } u → Keeps s w u
unfolding Keeps
with_builder-Keeps s w u b k = k

emit_tail_popped-Keeps :
    (s : List ℕ) (host : Host) (w : Run) (o : Option (Cue × Builder))
    → Keeps s w (emit_tail_popped host w o).2
unfolding emit_tail_popped
emit_tail_popped-Keeps s host w none = Keeps-same s w
emit_tail_popped-Keeps s host w (some (cue, b)) = with_builder-Keeps s w _ b (
    emit_tail_segment-Keeps s (segment_of w.session_id cue) host record w { builder = b }
      (unfold segment_of in refl))

pub emit_tail_segments-Keeps :
    (s : List ℕ) (fuel : ℕ) (host : Host) (w : Run) → Keeps s w (emit_tail_segments fuel host w).1
unfolding emit_tail_segments
emit_tail_segments-Keeps s zero host w = Keeps-same s w
emit_tail_segments-Keeps s (suc fuel) host w =
    let popped = emit_tail_popped host w (pop w.builder) in
    let first = emit_tail_popped-Keeps s host w (pop w.builder) in
    pick {A = Bool × Run} (λ r. Keeps s w r.1) popped.0
      (λ again. Keeps-then s w popped.2 _ first (emit_tail_segments-Keeps s fuel host popped.2))
      (λ stops. first)

emit_segment-Keeps :
    (s : List ℕ) (c : CaptionSegment) (host : Host) (w : Run)
    → c.session_id ≡ w.session_id
    → Keeps s w (emit_segment c host w)
unfolding emit_segment
emit_segment-Keeps s c host w own =
    pick (λ x. Keeps s w x) (submit_segment c w).0
      (λ taken. unfold submit_segment in submit_to-Keeps s c w w.translator)
      (λ refused. or_fail-Keeps s w _ (sent-Keeps s c (tries_translation c w) host w own))

emit_popped-Keeps :
    (s : List ℕ) (host : Host) (w : Run) (o : Option (Cue × Builder))
    → Keeps s w (emit_popped host w o).1
unfolding emit_popped
emit_popped-Keeps s host w none = Keeps-same s w
emit_popped-Keeps s host w (some (cue, b)) = with_builder-Keeps s w _ b (
    emit_segment-Keeps s (segment_of w.session_id cue) host record w { builder = b }
      (unfold segment_of in refl))

pub emit_segments-Keeps :
    (s : List ℕ) (fuel : ℕ) (host : Host) (w : Run) → Keeps s w (emit_segments fuel host w)
unfolding emit_segments
emit_segments-Keeps s zero host w = Keeps-same s w
emit_segments-Keeps s (suc fuel) host w =
    let step = emit_popped host w (pop w.builder) in
    let first = emit_popped-Keeps s host w (pop w.builder) in
    pick (λ x. Keeps s w x) step.0
      (λ again. Keeps-then s w step.1 _ first (emit_segments-Keeps s fuel host step.1))
      (λ stops. first)
