-- ===== src/Worker/Captions.antt =====
-- How the captions leave the worker: vw_worker_deliver_translation, vw_worker_emit_tail_segments,
-- vw_worker_drain_translation and the loops over the builder and the translator in vw_worker_run of
-- worker/src/vw_worker.c. The threads of the translator work between these parts; what they do while
-- vw_worker_drain_translation sleeps is one entry of `waits` for each turn of its loop.
use vlc_whisper.Common.{
  ℕ, zero, suc, Bool, true, false, ◌&&◌, ◌||◌, not, Option, none, some, List, [], ◌∷◌,
  if◌then◌else◌,
}
use vlc_whisper.Protocol.Types.{CaptionSegment, Pointer}
use vlc_whisper.SegmentBuilder.{Cue, Builder}
use vlc_whisper.SegmentBuilder.Push.{pop}
use vlc_whisper.TranslateAsync.{Result, result_capacity}
use vlc_whisper.TranslateAsync.Step.{submit, has_pending, try_deliver}
use vlc_whisper.TranslateAsync.Bounds.{Pool, takes, completes, act}
use vlc_whisper.Worker.Run.{or_fail, send_caption_segment}
use vlc_whisper.Worker.Run.State.{
  Run, Host, Progress, takes_job, completes_job, same_bytes, i64_pattern,
}

-- The segment of a popped cue, as the loops over the builder fill it in.
unfoldable pub segment_of : List ℕ → Cue → CaptionSegment
segment_of session_id c = record {
  session_id = session_id;
  segment_id = c.segment_id;
  start_pts_us = i64_pattern c.start_pts_us;
  end_pts_us = i64_pattern c.end_pts_us;
  is_final = if c.is_final then 1 else 0;
  text_utf8 = c.text_utf8;
  text_bytes = c.text_bytes;
  translated_text_utf8 = none;
  translated_text_bytes = 0;
  translation_attempted = false;
  translation_latency_us = 0;
  translation_tier = 0;
}

abbrev pub attempted : Bool → CaptionSegment → CaptionSegment
attempted b segment = record segment { translation_attempted = b }

-- segment.text_utf8 && segment.text_utf8[0]
abbrev pub has_text : Pointer → Bool
has_text none = false
has_text (some []) = false
has_text (some (c ∷ cs)) = true

-- vw_worker_deliver_translation
unfoldable pub deliver_translation : Result → Host → Run → Run
unfolding send_caption_segment same_bytes
deliver_translation translated host w =
    if not w.session_active || not (same_bytes translated.segment.session_id w.session_id)
    then w
    else or_fail (send_caption_segment translated.segment host w)

unfoldable pub deliver_taken : Option Result → Host → Run → Bool × Run
unfolding deliver_translation
deliver_taken none host w = (false, w)
deliver_taken (some translated) host w = (true, deliver_translation translated host w)

-- vw_translate_async_try_deliver with vw_worker_deliver_translation
unfoldable pub deliver_one : Pool → Host → Run → Bool × Run
unfolding deliver_taken try_deliver
deliver_one p host w =
    deliver_taken (try_deliver p.async).0 host
      record w { translator = some record p { async = (try_deliver p.async).1 } }

unfoldable pub deliver_next : Option Pool → Host → Run → Bool × Run
unfolding deliver_one
deliver_next none host w = (false, w)
deliver_next (some p) host w = deliver_one p host w

-- The loop of calls until one answers false. A call that answers true takes a result, so one turn more
-- than the results is enough.
unfoldable pub deliver_all : ℕ → Host → Run → Run
unfolding deliver_next
deliver_all zero host w = w
deliver_all (suc fuel) host w =
    let step = deliver_next w.translator host w in
    let rest = deliver_all fuel host step.1 in if step.0 then rest else step.1

unfoldable pub work : List Progress → Pool → Pool
unfolding act
work [] p = p
work (takes_job ∷ rest) p = work rest (act p takes)
work (completes_job i t ∷ rest) p = work rest (act p (completes i t))

unfoldable pub worked : List Progress → Option Pool → Option Pool
unfolding work
worked progress none = none
worked progress (some p) = some (work progress p)

unfoldable pub let_work : List Progress → Run → Run
unfolding worked
let_work progress w = record w { translator = worked progress w.translator }

-- The loop behind the frame, and that at the end of a turn.
unfoldable pub deliver_results : List Progress → Host → Run → Run
unfolding let_work deliver_all
deliver_results progress host w = deliver_all (suc result_capacity) host (let_work progress w)

unfoldable pub is_pending : Option Pool → Bool
unfolding has_pending
is_pending none = false
is_pending (some p) = has_pending p.async

-- vw_worker_drain_translation, for as many turns as there are waits: what the threads do in each. The
-- code goes on until nothing is pending, which the deadlines of the requests bring about.
unfoldable pub drain_translation : List (List Progress) → Host → Run → Run
unfolding is_pending deliver_next let_work
drain_translation [] host w = w
drain_translation (progress ∷ later) host w =
    let step = deliver_next w.translator host w in
    let next = if step.0 then step.1 else let_work progress step.1 in
    let rest = drain_translation later host next in
    if w.running && is_pending w.translator then rest else w

-- vw_translate_async_submit, if there is a translator and translation is enabled.
unfoldable pub submit_to : CaptionSegment → Run → Option Pool → Bool × Run
unfolding submit
submit_to segment w none = (false, w)
submit_to segment w (some p) =
    let r = submit p.async segment (some w.translate_src_lang) (some w.translate_dst_lang) in
    if w.translate_enabled && has_text segment.text_utf8
    then (r.0, record w { translator = some record p { async = r.1 } })
    else (false, w)

unfoldable pub submit_segment : CaptionSegment → Run → Bool × Run
unfolding submit_to
submit_segment segment w = submit_to segment w w.translator

-- The body of the loop of vw_worker_emit_tail_segments.
unfoldable pub emit_tail_segment : CaptionSegment → Host → Run → Bool × Run
unfolding submit_segment send_caption_segment
emit_tail_segment segment host w =
    let submitted = submit_segment segment w in
    if submitted.0
    then submitted
    else send_caption_segment (attempted w.translate_enabled segment) host submitted.1

-- Whether the loop goes on, what the function returns if not, and the state.
unfoldable pub emit_tail_popped : Host → Run → Option (Cue × Builder) → Bool × Bool × Run
unfolding emit_tail_segment segment_of
emit_tail_popped host w none = (false, true, w)
emit_tail_popped host w (some (cue, b)) =
    let sent = emit_tail_segment (segment_of w.session_id cue) host record w { builder = b } in
    (sent.0, sent.0, sent.1)

-- vw_worker_emit_tail_segments; a pop takes a cue, so one turn more than the cues is enough.
unfoldable pub emit_tail_segments : ℕ → Host → Run → Bool × Run
unfolding emit_tail_popped pop
emit_tail_segments zero host w = (true, w)
emit_tail_segments (suc fuel) host w =
    let (goes, sent, next) = emit_tail_popped host w (pop w.builder) in
    let rest = emit_tail_segments fuel host next in if goes then rest else (sent, next)

-- Whether translation is tried by the loop over the builder in vw_worker_run.
abbrev pub tries_translation : CaptionSegment → Run → Bool
tries_translation segment w = elim w.translator [
  | none ↦ false
  | some p ↦ w.translate_enabled && has_text segment.text_utf8
]

-- The body of that loop.
unfoldable pub emit_segment : CaptionSegment → Host → Run → Run
unfolding submit_segment send_caption_segment
emit_segment segment host w =
    let submitted = submit_segment segment w in
    if submitted.0
    then submitted.1
    else or_fail
        (send_caption_segment (attempted (tries_translation segment w) segment) host submitted.1)

unfoldable pub emit_popped : Host → Run → Option (Cue × Builder) → Bool × Run
unfolding emit_segment segment_of
emit_popped host w none = (false, w)
emit_popped host w (some (cue, b)) =
    (true, emit_segment (segment_of w.session_id cue) host record w { builder = b })

-- The loop over the builder in vw_worker_run.
unfoldable pub emit_segments : ℕ → Host → Run → Run
unfolding emit_popped pop
emit_segments zero host w = w
emit_segments (suc fuel) host w =
    let step = emit_popped host w (pop w.builder) in
    let rest = emit_segments fuel host step.1 in if step.0 then rest else step.1
