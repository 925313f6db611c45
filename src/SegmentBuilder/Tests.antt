-- ===== src/SegmentBuilder/Tests.antt =====
-- The theorems on the builder of captions at concrete inputs, and runs of the code.
use vlc_whisper.Common.{
  ℕ, ◌+◌, ◌≡◌, ◌≤◌, ◌⊎◌, refl, Bool, true, false, Option, none, some, List, [], ◌∷◌, ◌++◌, ap,
  arith, length, take, replicate,
}
use vlc_whisper.Common.Int.{ℤ, pos, negsuc, ◌+ℤ◌}
use vlc_whisper.SegmentBuilder.{
  blank_cue, blank_entry, Builder, Cue, Heap, create, clear, get_last_segment,
  dedup_time_tolerance_us,
}
use vlc_whisper.SegmentBuilder.Text.{tail_prefix_len}
use vlc_whisper.SegmentBuilder.Push.{Heaps, push_hypothesis, pop, trim, is_refused_text}
use vlc_whisper.SegmentBuilder.Outcome.Steps.{emit}
use vlc_whisper.SegmentBuilder.Pending.{poll, seen, remaining, pop-pending}
use vlc_whisper.SegmentBuilder.Pending.Growth.{IsValid, pending}
use vlc_whisper.SegmentBuilder.Effect.{Queues, push-Queues}
use vlc_whisper.SegmentBuilder.NewAudio.{IsBehind, push-new}
use vlc_whisper.SegmentBuilder.Coverage.{push-again}
use vlc_whisper.SegmentBuilder.Overlap.{tail_prefix_len-Shared}
use vlc_whisper.SegmentBuilder.Overlap.Parts.{Shared}
use vlc_whisper.SegmentBuilder.Session.{
  Call, pushes, pops, session, Timeline, IsFresh, session-Timeline, clear-IsFresh, create-IsFresh,
}

abbrev enough : Heap
enough = record { trimmed = true; copy = true; new_queue = true }

abbrev memory : Heaps
memory = record { pending = enough; turns = λ i. enough; phrase = enough }

abbrev start_state : Builder
start_state = record {
  next_segment_id = 1;
  segment_queue = replicate 32 blank_cue;
  capacity = 32;
  head = 0;
  count = 0;
  history = replicate 16 blank_entry;
  history_head = 0;
  history_count = 0;
  covered_end_us = negsuc 0;
}

start_state-IsFresh : IsFresh start_state
unfolding create
start_state-IsFresh = create-IsFresh start_state refl

-- "we go now"
abbrev we_go_now : List ℕ
we_go_now = b'w' ∷ b'e' ∷ b' ' ∷ b'g' ∷ b'o' ∷ b' ' ∷ b'n' ∷ b'o' ∷ b'w' ∷ []

-- "to the sea"
abbrev to_the_sea : List ℕ
to_the_sea = b't' ∷ b'o' ∷ b' ' ∷ b't' ∷ b'h' ∷ b'e' ∷ b' ' ∷ b's' ∷ b'e' ∷ b'a' ∷ []

-- "go now far"
abbrev go_now_far : List ℕ
go_now_far = b'g' ∷ b'o' ∷ b' ' ∷ b'n' ∷ b'o' ∷ b'w' ∷ b' ' ∷ b'f' ∷ b'a' ∷ b'r' ∷ []

abbrev calls : List Call
calls =
    pushes memory (some we_go_now) (pos 0) (pos 2000000)
    ∷ pushes memory (some to_the_sea) (pos 2000000) (pos 4000000)
    ∷ pops
    ∷ pushes memory (some go_now_far) (pos 1900000) (pos 5000000)
    ∷ []

abbrev times : List Cue → List (ℤ × ℤ)
times [] = []
times (c ∷ cs) = (c.start_pts_us, c.end_pts_us) ∷ times cs

-- The third phrase repeats the end of the first one, and its cue starts at the end of that cue, before
-- the second one ends.
overlapping :
    let (out, after) = session start_state calls in
    times (out ++ pending after)
    ≡ (pos 0, pos 2000000) ∷ (pos 2000000, pos 4000000) ∷ (pos 2000000, pos 5000000) ∷ []
unfolding vlc_whisper.Hallucination.is_phantom_text
    vlc_whisper.Hallucination.is_isolated_punctuation vlc_whisper.Hallucination.no_word_byte
    vlc_whisper.Hallucination.is_word_byte vlc_whisper.Hallucination.is_non_speech_tag
    vlc_whisper.Hallucination.is_empty_or_tag vlc_whisper.Hallucination.skip_spaces
    vlc_whisper.Hallucination.is_space vlc_whisper.Hallucination.is_tag
    vlc_whisper.Hallucination.cut_spaces vlc_whisper.Hallucination.add_unless_blank
    vlc_whisper.Hallucination.is_only_musical_notes vlc_whisper.Hallucination.only_notes
    vlc_whisper.Hallucination.case_equals vlc_whisper.Hallucination.is_around_notes
    vlc_whisper.Hallucination.is_bracketed vlc_whisper.Hallucination.is_inner_tag
    vlc_whisper.Hallucination.matches_any vlc_whisper.Hallucination.to_lower
    vlc_whisper.Protocol.Utf8.check_code_point vlc_whisper.Protocol.Utf8.continuation
    vlc_whisper.Protocol.Utf8.lead_byte vlc_whisper.Protocol.Utf8.read_char
    vlc_whisper.Protocol.Utf8.read_long vlc_whisper.Protocol.Utf8.safe_len_from
    vlc_whisper.Protocol.Utf8.utf8_safe_len vlc_whisper.SegmentBuilder.Push.against_cue
    vlc_whisper.SegmentBuilder.Push.against_entry vlc_whisper.SegmentBuilder.Push.against_history
    vlc_whisper.SegmentBuilder.Push.against_pending vlc_whisper.SegmentBuilder.Push.against_pointer
    vlc_whisper.SegmentBuilder.Push.against_text vlc_whisper.SegmentBuilder.Push.deduplicate
    vlc_whisper.SegmentBuilder.Push.is_covered vlc_whisper.SegmentBuilder.Push.is_refused_text
    vlc_whisper.SegmentBuilder.Push.pop vlc_whisper.SegmentBuilder.Push.push_hypothesis
    vlc_whisper.SegmentBuilder.Push.queue_phrase vlc_whisper.SegmentBuilder.Push.time_matches
    vlc_whisper.SegmentBuilder.Push.trim vlc_whisper.SegmentBuilder.Text.contains
    vlc_whisper.SegmentBuilder.Text.count_words vlc_whisper.SegmentBuilder.Text.is_tail_prefix
    vlc_whisper.SegmentBuilder.Text.is_word_start
    vlc_whisper.SegmentBuilder.Text.longest_tail_prefix vlc_whisper.SegmentBuilder.Text.starts_with
    vlc_whisper.SegmentBuilder.Text.strings_equal vlc_whisper.SegmentBuilder.Text.tail_prefix_len
    vlc_whisper.SegmentBuilder.Text.cut_blanks vlc_whisper.SegmentBuilder.Text.skip_blanks
    vlc_whisper.SegmentBuilder.Text.is_blank vlc_whisper.SegmentBuilder.apply_tail_trim
    vlc_whisper.SegmentBuilder.commit_history vlc_whisper.SegmentBuilder.copy_queue
    vlc_whisper.SegmentBuilder.enqueue vlc_whisper.SegmentBuilder.get_last_segment
    vlc_whisper.SegmentBuilder.grow vlc_whisper.SegmentBuilder.is_near_cue
    vlc_whisper.SegmentBuilder.write_cue vlc_whisper.SegmentBuilder.Session.session
    vlc_whisper.SegmentBuilder.Pending.Growth.pending vlc_whisper.Common.Int.◌+ℤ◌
    vlc_whisper.Common.Int.◌-ℤ◌
overlapping = refl

session-Timeline_example :
    let (out, after) = session start_state calls in
    Timeline (negsuc 0) (out ++ pending after) after.covered_end_us × IsValid after × IsBehind after
session-Timeline_example = session-Timeline start_state calls start_state-IsFresh

push-Queues_example :
    (push_hypothesis memory start_state (some we_go_now) (pos 0) (pos 2000000)
      ≡ (false, start_state))
    ⊎ Queues start_state we_go_now
        (pos 0)
        (pos 2000000)
        (push_hypothesis memory start_state (some we_go_now) (pos 0) (pos 2000000))
push-Queues_example =
    push-Queues memory start_state we_go_now (pos 0) (pos 2000000) start_state-IsFresh.valid

speech : is_refused_text (trim we_go_now) ≡ false
unfolding vlc_whisper.SegmentBuilder.Push.trim vlc_whisper.SegmentBuilder.Push.is_refused_text
    vlc_whisper.Hallucination.is_phantom_text vlc_whisper.Hallucination.is_isolated_punctuation
    vlc_whisper.Hallucination.no_word_byte vlc_whisper.Hallucination.is_word_byte
    vlc_whisper.Hallucination.is_non_speech_tag vlc_whisper.Hallucination.is_empty_or_tag
    vlc_whisper.Hallucination.skip_spaces vlc_whisper.Hallucination.is_space
    vlc_whisper.Hallucination.is_tag vlc_whisper.Hallucination.cut_spaces
    vlc_whisper.Hallucination.add_unless_blank vlc_whisper.Hallucination.is_only_musical_notes
    vlc_whisper.Hallucination.only_notes vlc_whisper.Hallucination.case_equals
    vlc_whisper.Hallucination.is_around_notes vlc_whisper.Hallucination.is_bracketed
    vlc_whisper.Hallucination.is_inner_tag vlc_whisper.Hallucination.matches_any
    vlc_whisper.Hallucination.to_lower vlc_whisper.SegmentBuilder.Text.cut_blanks
    vlc_whisper.SegmentBuilder.Text.skip_blanks vlc_whisper.SegmentBuilder.Text.is_blank
speech = refl

accepted : (push_hypothesis memory start_state (some we_go_now) (pos 600000) (pos 2000000)).0 ≡ true
unfolding vlc_whisper.Common.Int.◌+ℤ◌
accepted =
    ap (λ r. r.0)
      (push-new memory start_state we_go_now (pos 600000) (pos 2000000) start_state-IsFresh.valid
        start_state-IsFresh.behind refl refl (omega arith) (omega arith) speech (omega arith))

push-new_example :
    push_hypothesis memory start_state (some we_go_now) (pos 600000) (pos 2000000)
    ≡ (true, emit start_state (trim we_go_now) (pos 600000) (pos 2000000))
unfolding vlc_whisper.Common.Int.◌+ℤ◌
push-new_example =
    push-new memory start_state we_go_now (pos 600000) (pos 2000000) start_state-IsFresh.valid
      start_state-IsFresh.behind refl refl (omega arith) (omega arith) speech (omega arith)

push-again_example :
    let after =
      (push_hypothesis memory start_state (some we_go_now) (pos 600000) (pos 2000000)).1 in
    push_hypothesis memory after (some to_the_sea) (pos 1000000) (pos 2400000) ≡ (false, after)
unfolding vlc_whisper.Common.Int.◌+ℤ◌
push-again_example =
    push-again memory memory start_state we_go_now to_the_sea (pos 600000) (pos 2000000)
      (pos 1000000) (pos 2400000) start_state-IsFresh.valid accepted (omega arith) (omega arith)

-- Two cues are queued.
abbrev two_pending : Builder
two_pending = (session start_state (take 2 calls)).1

two_pending-IsValid : IsValid two_pending
two_pending-IsValid =
    let (timed, valid, behind) = session-Timeline start_state (take 2 calls) start_state-IsFresh in
    valid

pop-pending_example :
    (seen (pop two_pending) ≡ poll (pending two_pending))
    × IsValid (remaining two_pending (pop two_pending))
pop-pending_example = pop-pending two_pending two_pending-IsValid

tail_prefix_len-Shared_example :
    let m = tail_prefix_len we_go_now go_now_far in
    ((m ≡ 0) ⊎ Shared we_go_now go_now_far (take m go_now_far))
    × ((text : List ℕ) → Shared we_go_now go_now_far text → length text ≤ m)
tail_prefix_len-Shared_example = tail_prefix_len-Shared we_go_now go_now_far

two_words_shared : tail_prefix_len we_go_now go_now_far ≡ 6
unfolding tail_prefix_len vlc_whisper.SegmentBuilder.Text.is_blank
two_words_shared = refl
