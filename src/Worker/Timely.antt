-- ===== src/Worker/Timely.antt =====
-- That no part of the end of a session in worker/src/vw_worker.c leaves a job of a later epoch than the
-- translator's.
use Prim.Native.String.{String}
use vlc_whisper.Common.{
  ℕ, zero, suc, Bool, ◌&&◌, ◌||◌, not, Option, none, some, List, [], ◌∷◌, if◌then◌else◌, pick,
}
use vlc_whisper.Protocol.Types.{Message, CaptionSegment}
use vlc_whisper.AudioBuffer.{AudioBuffer, get_count}
use vlc_whisper.SegmentBuilder.{Cue, Builder}
use vlc_whisper.SegmentBuilder.Push.{pop}
use vlc_whisper.TranslateAsync.{Result}
use vlc_whisper.TranslateAsync.Step.{try_deliver}
use vlc_whisper.TranslateAsync.Bounds.{Pool}
use vlc_whisper.TranslateAsync.Epochs.{
  IsTimely, submit-IsTimely, deliver-IsTimely, take-IsTimely, complete-IsTimely,
}
use vlc_whisper.Worker.{flush_audio_tail}
use vlc_whisper.Worker.Run.{or_fail, post, send_payload, send_error, send_caption_segment}
use vlc_whisper.Worker.Run.State.{Run, Host, Config, Progress, takes_job, completes_job, same_bytes}
use vlc_whisper.Worker.Captions.{
  segment_of, attempted, has_text, deliver_translation, deliver_taken, deliver_one, deliver_next,
  work, worked, let_work, is_pending, drain_translation, submit_to, submit_segment,
  emit_tail_segment, emit_tail_popped, emit_tail_segments,
}
use vlc_whisper.Worker.Listening.{flushed_to, flush_tail}
use vlc_whisper.Worker.Closing.{flush_session}

-- The jobs of the translator, if there is one, are timely.
abbrev pub TimelyOf : Option Pool → Type 0
TimelyOf none = Unit
TimelyOf (some p) = IsTimely p

abbrev pub Timely : Run → Type 0
Timely w = TimelyOf w.translator

send_payload-Timely :
    (m : Message) (host : Host) (w : Run) (o : Option (List ℕ))
    → Timely w
    → Timely (send_payload m host w o).1
unfolding send_payload
send_payload-Timely m host w none t = t
send_payload-Timely m host w (some payload) t = t

or_fail-Timely : (r : Bool × Run) → Timely r.1 → Timely (or_fail r)
or_fail-Timely r t = pick Timely r.0 (λ sent. t) (λ lost. t)

caption-Timely :
    (c : CaptionSegment) (host : Host) (w : Run)
    → Timely w
    → Timely (send_caption_segment c host w).1
unfolding send_caption_segment post
caption-Timely c host w t = send_payload-Timely _ host w _ t

deliver_taken-Timely :
    (o : Option Result) (host : Host) (w : Run) → Timely w → Timely (deliver_taken o host w).1
unfolding deliver_taken deliver_translation
deliver_taken-Timely none host w t = t
deliver_taken-Timely (some r) host w t =
    pick Timely (not w.session_active || not (same_bytes r.segment.session_id w.session_id))
      (λ foreign. t)
      (λ own.
        or_fail-Timely (send_caption_segment r.segment host w) (caption-Timely r.segment host w t))

deliver_next-Timely :
    (o : Option Pool) (host : Host) (w : Run)
    → Timely w
    → TimelyOf o
    → Timely (deliver_next o host w).1
unfolding deliver_next deliver_one
deliver_next-Timely none host w t u = t
deliver_next-Timely (some p) host w t u =
    deliver_taken-Timely (try_deliver p.async).0 host
      record w { translator = some record p { async = (try_deliver p.async).1 } }
      (deliver-IsTimely p u)

work-IsTimely : (progress : List Progress) (p : Pool) → IsTimely p → IsTimely (work progress p)
unfolding work
work-IsTimely [] p t = t
work-IsTimely (takes_job ∷ rest) p t = work-IsTimely rest _ (take-IsTimely p t)
work-IsTimely (completes_job i r ∷ rest) p t = work-IsTimely rest _ (complete-IsTimely p i r t)

worked-Timely :
    (progress : List Progress) (o : Option Pool) → TimelyOf o → TimelyOf (worked progress o)
unfolding worked
worked-Timely progress none t = t
worked-Timely progress (some p) t = work-IsTimely progress p t

pub drain_translation-Timely :
    (waits : List (List Progress)) (host : Host) (w : Run)
    → Timely w
    → Timely (drain_translation waits host w)
unfolding drain_translation let_work
drain_translation-Timely [] host w t = t
drain_translation-Timely (progress ∷ later) host w t =
    let step = deliver_next w.translator host w in
    let next = if step.0 then step.1 else let_work progress step.1 in
    let first = deliver_next-Timely w.translator host w t t in
    pick Timely (w.running && is_pending w.translator)
      (λ waiting. drain_translation-Timely later host next (
        pick Timely step.0 (λ went. first)
          (λ slept. worked-Timely progress step.1.translator first)))
      (λ done. t)

submit_to-Timely :
    (c : CaptionSegment) (w : Run) (o : Option Pool)
    → Timely w
    → TimelyOf o
    → Timely (submit_to c w o).1
unfolding submit_to
submit_to-Timely c w none t u = t
submit_to-Timely c w (some p) t u =
    pick {A = Bool × Run} (λ r. Timely r.1) (w.translate_enabled && has_text c.text_utf8)
      (λ tried. submit-IsTimely p c (some w.translate_src_lang) (some w.translate_dst_lang) u)
      (λ untried. t)

emit_tail_segment-Timely :
    (c : CaptionSegment) (host : Host) (w : Run) → Timely w → Timely (emit_tail_segment c host w).1
unfolding emit_tail_segment submit_segment
emit_tail_segment-Timely c host w t =
    let submitted = submit_to c w w.translator in
    let first = submit_to-Timely c w w.translator t t in
    pick {A = Bool × Run} (λ r. Timely r.1) submitted.0 (λ taken. first)
      (λ sent. caption-Timely (attempted w.translate_enabled c) host submitted.1 first)

emit_tail_popped-Timely :
    (host : Host) (w : Run) (o : Option (Cue × Builder))
    → Timely w
    → Timely (emit_tail_popped host w o).2
unfolding emit_tail_popped
emit_tail_popped-Timely host w none t = t
emit_tail_popped-Timely host w (some (cue, b)) t =
    emit_tail_segment-Timely (segment_of w.session_id cue) host record w { builder = b } t

emit_tail_segments-Timely :
    (fuel : ℕ) (host : Host) (w : Run) → Timely w → Timely (emit_tail_segments fuel host w).1
unfolding emit_tail_segments
emit_tail_segments-Timely zero host w t = t
emit_tail_segments-Timely (suc fuel) host w t =
    let popped = emit_tail_popped host w (pop w.builder) in
    let next = emit_tail_popped-Timely host w (pop w.builder) t in
    pick {A = Bool × Run} (λ r. Timely r.1) popped.0
      (λ goes. emit_tail_segments-Timely fuel host popped.2 next) (λ ends. next)

flushed_to-Timely :
    (w : Run) (o : Option (Bool × AudioBuffer × Builder)) → Timely w → Timely (flushed_to w o).1
unfolding flushed_to
flushed_to-Timely w none t = t
flushed_to-Timely w (some (flushed, audio_buf, builder)) t = t

flush_tail-Timely :
    (config : Config) (host : Host) (w : Run) → Timely w → Timely (flush_tail config host w).1
unfolding flush_tail
flush_tail-Timely config host w t =
    pick {A = Bool × Run} (λ r. Timely r.1) (not config.has_engine) (λ absent. t)
      (λ present.
        flushed_to-Timely w
          (flush_audio_tail (suc (get_count w.audio_buf)) host.tail 0 w.audio_buf w.builder) t)

pub flush_session-Timely :
    (config : Config) (host : Host) (text : String) (w : Run)
    → Timely w
    → Timely (flush_session config host text w).1
unfolding flush_session send_error post
flush_session-Timely config host text w t =
    let flushed = flush_tail config host w in
    let emitted = emit_tail_segments (suc flushed.1.builder.count) host flushed.1 in
    let first = flush_tail-Timely config host w t in
    pick {A = Bool × Run} (λ r. Timely r.1) flushed.0
      (λ done.
        or_fail-Timely emitted
          (emit_tail_segments-Timely (suc flushed.1.builder.count) host flushed.1 first))
      (λ failed. send_payload-Timely _ host flushed.1 _ first)
