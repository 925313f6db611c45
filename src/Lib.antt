-- ===== src/Lib.antt =====
-- A verification library for vlc-whisper, which adds live captions to VLC: a plugin in the player
-- sends audio to a worker process over a local connection, and the worker runs speech recognition
-- and sends captions back.
--
-- The parts and the files that model them:
-- * The protocol of the connection. `Protocol.Types` has the structs of
--   protocol/include/vw_protocol_types.h, `Protocol.Wire` the field macros, `Protocol.Header`,
--   `Protocol.Encode` and `Protocol.Decode` the functions of protocol/src/vw_protocol_codec.c (the
--   switch of vw_protocol_encode_payload is `encode_payload`, each case a function of its own, and
--   so for decoding). `Protocol.Validate`, `Protocol.Utf8` and `Protocol.Language` are
--   protocol/src/vw_protocol_validate.c; `Protocol.Utf8` also vw_utf8_safe_len of
--   protocol/include/vw_protocol_util.h. `Protocol.WellFormed` says which messages the senders
--   build, and `Protocol.Roundtrip` has the proofs on the codec.
-- * `Spsc` is plugin/src/vw_queue.c, the lock-free queue from VLC's audio callback to the thread that
--   sends: the calls one at a time in `Spsc`, and one atomic access at a time in `Spsc.Threads`.
--   Sent audio is then an AUDIO_PCM message of the protocol.
-- * `WorkerQueue` is worker/src/vw_worker_queue.c, which holds the frames that the worker's reader
--   thread has received. It decodes AUDIO_PCM payloads with `Protocol.Decode`. `WorkerQueue.Fifo` is
--   the queue as a list of frames, and `WorkerQueue.Rule` says which frame gives way in a full one.
-- * `AudioBuffer` is worker/src/vw_audio_buffer.c, the ring of samples that recognition reads, with
--   the time of its oldest sample.
-- * `Sha256` is worker/src/vw_sha256.c, with which the worker checks the model files it downloads.
--   `Sha256.Standard` is the hash of a whole message: FIPS 180-4's padding, then block after block.
-- * `Hallucination` is worker/src/vw_hallucination_filter.c, which suppresses recognised text that is
--   no speech. `Protocol.Saturating` has the saturating sums of protocol/include/vw_protocol_util.h.
-- * `PausedPreview` is plugin/include/vw_paused_preview_policy.h, which grants one caption after a seek
--   while playback is paused.
-- * `SegmentBuilder` is worker/src/vw_segment_builder.c, which makes captions from the phrases that
--   recognition gives for overlapping windows of audio: the record and the ring of pending cues in
--   `SegmentBuilder`, the string functions in `SegmentBuilder.Text`, and
--   vw_segment_builder_push_hypothesis, step by step, in `SegmentBuilder.Push`. It uses `Hallucination`
--   and `Protocol.Utf8`.
-- * `Vad` is vw_vad_find_chunk_boundary of worker/src/vw_vad.c, which says where the audio is cut for
--   recognition.
-- * `Worker` is worker/src/vw_worker.c, the main loop, which puts the parts above together. In
--   `Worker` itself is vw_worker_flush_audio_tail, which at the end of a stream takes audio from
--   `AudioBuffer` at the places that `Vad` gives and pushes the phrases to `SegmentBuilder`. The fuel of
--   its loop is the number of its turns; each turn takes at least one sample, so one more than the
--   samples of the ring is enough. `Worker.Run` has the state of vw_worker_run and the frames it posts,
--   `Worker.Listening` live audio and the look-ahead over a source, `Worker.Opening`,
--   `Worker.Following` and `Worker.Closing` the handlers of the control frames, `Worker.Captions` the
--   ways of a caption to the plugin, over `TranslateAsync`, and `Worker.MainLoop` the handshake, the
--   dispatch of the frames of `WorkerQueue` and the turns of the loop. What the system, recognition,
--   the decoder and the download answer in a turn, and what the translator's threads do between its
--   parts, is a record `Host`; theorems hold for all of them. `Worker.Keeps` and `Worker.Posts` carry
--   the proofs about what is posted, `Worker.Timely` and `TranslateAsync.Epochs` those about the jobs
--   that a session leaves behind. The loops over captions, results and windows run on as much fuel as
--   there are cues, results and samples, of which each turn takes one or more.
-- * `CaptionPresenter` is plugin/src/vw_caption_presenter.c, which shows the captions in the player:
--   the model-progress channel in `CaptionPresenter`, the captions in `CaptionPresenter.Show`. What VLC
--   answers is a record of arguments, and what it is told a list of effects.
-- * `TranslateAsync` is worker/src/vw_translate_async.c, the translator behind the worker's loop: its
--   state and rings in `TranslateAsync`, submitting, taking, completing and delivering in
--   `TranslateAsync.Step`. What the threads do is a list of steps, each under the mutex; what
--   vw_translate_text_detailed of worker/src/vw_translate.c answers is an argument.
-- `Common` has what they share: Boolean tests, lists over the native numbers, windows of rings and
-- signed integers.
--
-- How the code is modelled: an operation on a struct takes the struct and returns the new one. NULL
-- and `return false` are `none` or `false`. Fixed-width integers are natural numbers below their
-- power of two, the wrap-around of a sum written out where it can happen; signed ones are patterns in
-- the protocol, and integers elsewhere. A test for a NULL argument that no caller gives is left out.
-- Allocations and pthread_mutex_init are Boolean arguments that say whether they succeed. Loops are
-- recursion on the list or on the count of turns. The loops of UTF-8 take a fuel of one turn a byte,
-- as many as the text has, and each turn takes at least a byte; the theorems on them hold of all
-- texts, so the fuel never runs out. An array index that a size_t counts without end, and the
-- worker's counter of frames, are taken not to reach 2^64. The reader thread acts between two turns of
-- the main loop.
--
-- Not modelled: the calls of VLC, of whisper.cpp, of FFmpeg and of the operating system (transport,
-- files, processes, network), the arithmetic on floats, and so far the plugin's sessions, the
-- worker's configuration, how its reader thread receives frames, what it opens before the main loop,
-- and the translation backends. Of the modelled files, the functions that only free memory have no
-- counterpart.
pub mod Common
pub mod AudioBuffer
pub mod CaptionPresenter
pub mod Hallucination
pub mod PausedPreview
pub mod Protocol
pub mod SegmentBuilder
pub mod Sha256
pub mod Spsc
pub mod TranslateAsync
pub mod Vad
pub mod Worker
pub mod WorkerQueue
