-- ===== src/Worker/Stopping.antt =====
-- What VW_MSG_STOP_SESSION leaves of a session in the main loop of worker/src/vw_worker.c.
use vlc_whisper.Common.{
  ℕ, ◌≡◌, refl, Bool, true, false, ◌&&◌, not, Option, none, some, List, [], ◌∷◌, arith, ltb, ◌==◌,
  if◌then◌else◌, pick,
}
use vlc_whisper.Protocol.Types.{Message, Control}
use vlc_whisper.AudioBuffer
use vlc_whisper.AudioBuffer.{get_count}
use vlc_whisper.SegmentBuilder
use vlc_whisper.SegmentBuilder.{Builder}
use vlc_whisper.TranslateAsync.Bounds.{Pool}
use vlc_whisper.TranslateAsync.Epochs.{IsStale, invalidate-IsStale, take-IsStale, complete-IsStale}
use vlc_whisper.Worker.Timely.{TimelyOf, Timely, flush_session-Timely, drain_translation-Timely}
use vlc_whisper.Worker.Run.{or_fail, post, send_payload, send_status, invalidated}
use vlc_whisper.Worker.Run.State.{Run, Host, Config, Progress, takes_job, completes_job, same_bytes}
use vlc_whisper.Worker.Captions.{work, worked, drain_translation}
use vlc_whisper.Worker.Closing.{flush_session, end_session, handle_stop}

-- The jobs of the translator, if there is one, are stale.
abbrev pub StaleOf : Option Pool → Type 0
StaleOf none = Unit
StaleOf (some p) = IsStale p

-- No session: nothing is heard, pending, read or waiting, and however far the threads of the translator
-- get, no translation comes.
pub record IsEnded (w : Run) : Type 0 where
  pub inactive : w.session_active ≡ false
  pub no_audio : get_count w.audio_buf ≡ 0
  pub no_cue : w.builder.count ≡ 0
  pub no_source : w.source_decoder ≡ false
  pub no_translation : (progress : List Progress) → StaleOf (worked progress w.translator)

work-IsStale : (progress : List Progress) (p : Pool) → IsStale p → IsStale (work progress p)
unfolding work
work-IsStale [] p s = s
work-IsStale (takes_job ∷ rest) p s = work-IsStale rest _ (take-IsStale p s)
work-IsStale (completes_job i t ∷ rest) p s = work-IsStale rest _ (complete-IsStale p i t s)

worked-IsStale :
    (progress : List Progress) (o : Option Pool)
    → TimelyOf o
    → StaleOf (worked progress (invalidated o))
unfolding worked invalidated
worked-IsStale progress none t = tt
worked-IsStale progress (some p) t = work-IsStale progress _ (invalidate-IsStale p t)

end_session-IsEnded : (w : Run) → Timely w → IsEnded (end_session w)
unfolding end_session AudioBuffer.clear SegmentBuilder.clear get_count
end_session-IsEnded w t = record {
  inactive = refl;
  no_audio = refl;
  no_cue = refl;
  no_source = refl;
  no_translation = λ progress. worked-IsStale progress w.translator t;
}

send_payload-IsEnded :
    (m : Message) (host : Host) (w : Run) (o : Option (List ℕ))
    → IsEnded w
    → IsEnded (send_payload m host w o).1
unfolding send_payload
send_payload-IsEnded m host w none d = d
send_payload-IsEnded m host w (some payload) d = record {
  inactive = d.inactive;
  no_audio = d.no_audio;
  no_cue = d.no_cue;
  no_source = d.no_source;
  no_translation = d.no_translation;
}

or_fail-IsEnded : (r : Bool × Run) → IsEnded r.1 → IsEnded (or_fail r)
or_fail-IsEnded r d =
    pick IsEnded r.0 (λ sent. d)
      (λ lost. record {
        inactive = d.inactive;
        no_audio = d.no_audio;
        no_cue = d.no_cue;
        no_source = d.no_source;
        no_translation = d.no_translation;
      })

-- A stop of the worker's own session, whatever its reason, and whether or not the rest of its audio is
-- recognised and its captions are sent, ends the session: no audio, no pending cue, no source, no job
-- in the queue and no result of a translation is left for the next one, and whatever the threads of the
-- translator then do, no job that they still work on gives a result. The jobs of before are of no later
-- epoch than the translator's, which is not the last one.
pub handle_stop-IsEnded :
    (config : Config) (host : Host) (c : Control) (w : Run)
    → same_bytes c.session_id w.session_id ≡ true
    → Timely w
    → IsEnded (handle_stop config host c w)
unfolding handle_stop send_status post
handle_stop-IsEnded config host c w own t =
    let flushed =
      if c.reason == 3 && not w.source_mode && ltb 0 (get_count w.audio_buf)
      then (flush_session config host "MEDIA_END tail inference failed" w).1
      else w in
    let drained =
      if flushed.session_active && not (c.reason == 2)
      then drain_translation host.waits host flushed
      else flushed in
    let ended = end_session drained in
    let flushed_timely : Timely flushed =
      pick Timely (c.reason == 3 && not w.source_mode && ltb 0 (get_count w.audio_buf))
        (λ media. flush_session-Timely config host "MEDIA_END tail inference failed" w t)
        (λ other. t) in
    let drained_timely : Timely drained =
      pick Timely (flushed.session_active && not (c.reason == 2))
        (λ waits. drain_translation-Timely host.waits host flushed flushed_timely)
        (λ seeks. flushed_timely) in
    pick IsEnded (not (same_bytes c.session_id w.session_id)) (λ foreign. absurd (ground arith))
      (λ same.
        pick IsEnded ended.running
          (λ runs.
            or_fail-IsEnded (send_status config false false host ended)
              (send_payload-IsEnded _ host ended _ (end_session-IsEnded drained drained_timely)))
          (λ stopped. end_session-IsEnded drained drained_timely))
