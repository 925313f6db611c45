-- ===== src/Worker/Tail.antt =====
-- That vw_worker_flush_audio_tail of worker/src/vw_worker.c ends and leaves no audio.
use vlc_whisper.Common.{
  ℕ, zero, suc, ◌≤◌, ◌<◌, ◌≡◌, ◌⊎◌, inl, inr, refl, ap, sym, ◌∙◌, Bool, true, false, ◌&&◌, ◌||◌,
  not, Option, none, some, List, [], ◌∷◌, arith, ltb, leb, ◌==◌, if◌then◌else◌, length, take,
  length-take, length-drop, pick, min,
}
use mathlib.Core.Path.{subst}
use vlc_whisper.Common.Int.{ℤ}
use vlc_whisper.Protocol.Types.{Pointer}
use vlc_whisper.Protocol.Saturating.{saturating_add_i64}
use vlc_whisper.AudioBuffer.{AudioBuffer, get_count, get_samples, drain}
use vlc_whisper.AudioBuffer.Contents.{contents, length-contents}
use vlc_whisper.AudioBuffer.Operations.{get_samples_lem, drain_lem}
use vlc_whisper.AudioBuffer.Contents
use vlc_whisper.Vad.{Boundary, chunk_max_samples, find_chunk_boundary}
use vlc_whisper.Vad.Progress.{
  StartsInside, IsWithin, find_chunk_boundary-IsWithin, find_chunk_boundary-evaluated,
}
use vlc_whisper.SegmentBuilder.{Builder}
use vlc_whisper.SegmentBuilder.Push.{Heaps, push_hypothesis}
use vlc_whisper.SegmentBuilder.Pending.Growth
use vlc_whisper.SegmentBuilder.Effect.{push-Queues}
use vlc_whisper.Worker.{
  Phrase, Env, Turn, stop, again, push_phrases, tail_phrases, tail_boundary, tail_window, tail_turn,
  flush_audio_tail,
}

push_keeps_IsValid :
    (heaps : Heaps) (b : Builder) (text : Pointer) (start end : ℤ)
    → Growth.IsValid b
    → Growth.IsValid (push_hypothesis heaps b text start end).1
unfolding push_hypothesis
push_keeps_IsValid heaps b none start end v = v
push_keeps_IsValid heaps b (some text) start end v = elim (push-Queues heaps b text start end v) [
  | inl refused ↦ subst (λ r. Growth.IsValid r.1) (sym refused) v
  | inr q ↦ q.valid
]

push_phrases-IsValid :
    (env : Env) (turn : ℕ) (pts : ℤ) (b : Builder) (i : ℕ) (ps : List Phrase)
    → Growth.IsValid b
    → Growth.IsValid (push_phrases env turn pts b i ps)
unfolding push_phrases
push_phrases-IsValid env turn pts b i [] v = v
push_phrases-IsValid env turn pts b i (p ∷ ps) v =
    let start = saturating_add_i64 pts p.t0_us in
    let end = saturating_add_i64 pts p.t1_us in
    let pushed = (push_hypothesis (env.heaps turn i) b p.text_utf8 start end).1 in
    let skips = not p.is_readable || p.is_unlikely in
    push_phrases-IsValid env turn pts (if skips then b else pushed) (suc i) ps (
      pick Growth.IsValid skips (λ skipped. v)
        (λ read. push_keeps_IsValid (env.heaps turn i) b p.text_utf8 start end v))

-- What the model finds starts within the window that it is given.
abbrev pub FindsInside : Env → Type 0
FindsInside env =
    (turn : ℕ) (window : List ℕ) → StartsInside (length window) (env.detects turn window)

-- Recognition fails at some time.
abbrev pub Fails : Env → Type 0
Fails env = (turn : ℕ) × (window : List ℕ) × (env.transcribes turn window ≡ none)

-- The state of the loop, and what the code returns with it.
abbrev pub BothValid : AudioBuffer → Builder → Type 0
BothValid buf builder = Contents.IsValid buf × Growth.IsValid builder

abbrev pub Ended : Env → Bool → AudioBuffer → Type 0
Ended env done buf = ((done ≡ true) × (get_count buf ≡ 0)) ⊎ ((done ≡ false) × Fails env)

-- A turn ends the loop, or takes some of the audio.
TurnDone : Env → ℕ → Turn → Type 0
TurnDone env count (stop done buf builder) = BothValid buf builder × Ended env done buf
TurnDone env count (again buf builder) = BothValid buf builder × (buf.count < count)

drained_count :
    (buf : AudioBuffer) (n : ℕ)
    → Contents.IsValid buf
    → 0 < n
    → n ≤ buf.count
    → Contents.IsValid (drain buf n) × ((drain buf n).count < buf.count)
drained_count buf n v pos le =
    let (e, v') = drain_lem buf n v in
    (
      v',
      omega (
        arith,
        length-contents buf,
        length-contents (drain buf n),
        ap length e,
        length-drop n (contents buf),
      ),
    )

phrases-TurnDone :
    (env : Env) (turn : ℕ) (buf : AudioBuffer) (builder : Builder) (pts : ℤ) (cut : ℕ)
    (window : List ℕ) (o : Option (List Phrase))
    → BothValid buf builder
    → 0 < cut
    → cut ≤ buf.count
    → env.transcribes turn window ≡ o
    → TurnDone env buf.count (tail_phrases env turn buf builder pts cut o)
unfolding TurnDone tail_phrases
phrases-TurnDone env turn buf builder pts cut window none (v, w) pos le e =
    ((v, w), inr (refl, (turn, window, e)))
phrases-TurnDone env turn buf builder pts cut window (some ps) (v, w) pos le e =
    let (v', lt) = drained_count buf cut v pos le in
    ((v', push_phrases-IsValid env turn pts builder 0 ps w), lt)

boundary-TurnDone :
    (env : Env) (turn : ℕ) (buf : AudioBuffer) (builder : Builder) (window : List ℕ) (pts : ℤ)
    (r : Boundary)
    → BothValid buf builder
    → length window ≤ buf.count
    → r.evaluated ≡ true
    → IsWithin (length window) r
    → TurnDone env buf.count (tail_boundary env turn buf builder window pts r)
unfolding tail_boundary
boundary-TurnDone env turn buf builder window pts r (v, w) le evaluated within =
    pick (TurnDone env buf.count) (not r.evaluated || (r.cut == 0 && r.silence_drain == 0))
      (λ nothing. absurd (ground (arith, within, evaluated)))
      (λ found.
        pick (TurnDone env buf.count) (ltb 0 r.silence_drain)
          (λ silent.
            let (v', lt) = drained_count buf r.silence_drain v (ground arith) (ground arith) in
            unfold TurnDone in ((v', w), lt))
          (λ speech.
            phrases-TurnDone env turn buf builder pts r.cut (take r.cut window)
              (env.transcribes turn (take r.cut window)) (v, w) (ground arith) (ground arith) refl))

some_wanted : (n : ℕ) → 0 < n → (chunk_max_samples == 0 || n == 0) ≡ false
some_wanted n pos = ground arith

at_end : (n : ℕ) → (leb chunk_max_samples n || true) ≡ true
at_end n = ground arith

window-TurnDone :
    (env : Env) (turn : ℕ) (buf : AudioBuffer) (builder : Builder)
    → FindsInside env
    → BothValid buf builder
    → 0 < buf.count
    → TurnDone env buf.count (tail_window env turn buf builder (get_samples buf chunk_max_samples))
unfolding tail_window
window-TurnDone env turn buf builder finds (v, w) pos =
    let window = take chunk_max_samples (contents buf) in
    let size : length window ≡ min chunk_max_samples buf.count =
      length-take chunk_max_samples (contents buf)
      ∙ ap (min chunk_max_samples) (length-contents buf) in
    rw (get_samples_lem buf chunk_max_samples, some_wanted buf.count pos)
      (boundary-TurnDone env turn buf builder window buf.start_pts_us
        (find_chunk_boundary (env.detects turn window) (env.is_loud turn window) (length window)
          true)
        (v, w) (omega (arith, size))
        (find_chunk_boundary-evaluated (env.detects turn window) (env.is_loud turn window)
          (length window) true (omega (arith, size)) (at_end (length window)))
        (find_chunk_boundary-IsWithin (env.detects turn window) (env.is_loud turn window)
          (length window) true (finds turn window)))

turn-TurnDone :
    (env : Env) (turn : ℕ) (buf : AudioBuffer) (builder : Builder)
    → FindsInside env
    → BothValid buf builder
    → TurnDone env buf.count (tail_turn env turn buf builder)
unfolding tail_turn get_count
turn-TurnDone env turn buf builder finds (v, w) =
    pick (TurnDone env buf.count) (buf.count == 0)
      (λ empty_now. unfold TurnDone get_count in ((v, w), inl (refl, ground arith)))
      (λ some_left. window-TurnDone env turn buf builder finds (v, w) (ground arith))

-- What the loop returns: it has ended, and both structures are valid.
abbrev pub Flushed : Env → Option (Bool × AudioBuffer × Builder) → Type 0
Flushed env none = ⊥
Flushed env (some (done, buf, builder)) = BothValid buf builder × Ended env done buf

flushed :
    (fuel : ℕ) (env : Env) (turn : ℕ) (t : Turn) (count : ℕ)
    → count ≤ fuel
    → ((buf : AudioBuffer) (builder : Builder)
        → BothValid buf builder
        → buf.count < fuel
        → Flushed env (flush_audio_tail fuel env (suc turn) buf builder))
    → TurnDone env count t
    → Flushed env (elim t [
      | stop done buf builder ↦ some (done, buf, builder)
      | again buf builder ↦ flush_audio_tail fuel env (suc turn) buf builder
    ])
unfolding TurnDone
flushed fuel env turn (stop done buf builder) count le rest h = h
flushed fuel env turn (again buf builder) count le rest (valid, lt) =
    rest buf builder valid (omega arith)

-- With more fuel than there are samples, vw_worker_flush_audio_tail returns, whatever the model of
-- speech finds within its windows, the phrases and the allocations; the ring of audio and the builder
-- stay valid; and it has either taken all audio and returns true, or returns false because
-- recognition failed.
pub flush_audio_tail-Flushed :
    (fuel : ℕ) (env : Env) (turn : ℕ) (buf : AudioBuffer) (builder : Builder)
    → FindsInside env
    → BothValid buf builder
    → buf.count < fuel
    → Flushed env (flush_audio_tail fuel env turn buf builder)
unfolding flush_audio_tail
flush_audio_tail-Flushed zero env turn buf builder finds valid lt = absurd (omega arith)
flush_audio_tail-Flushed (suc fuel) env turn buf builder finds valid lt =
    flushed fuel env turn (tail_turn env turn buf builder) buf.count (omega arith)
      (λ buf' builder' valid' lt'.
        flush_audio_tail-Flushed fuel env (suc turn) buf' builder' finds valid' lt')
      (turn-TurnDone env turn buf builder finds valid)
