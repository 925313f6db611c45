-- ===== src/Spsc/Threads.antt =====
-- The producer (VLC's audio callback) and the consumer (the sender thread) of
-- plugin/src/vw_queue.c, one atomic access at a time. A schedule says which access comes next; the
-- release store of an index makes the writes before it visible to the acquire load that reads it,
-- so the accesses are taken to happen one after the other. The copy of a chunk into or out of its slot
-- is one step. `pushed`, `popped` and `refused` record
-- what the calls have returned.
use mathlib.Core.Path.{subst}
use mathlib.Core.List.{append_assoc}
use vlc_whisper.Common.{
  ℕ, zero, suc, ◌+◌, ◌%◌, ◌^◌, ◌≤◌, ◌<◌, ◌≡◌, ◌≢◌, refl, ap, ◌∙◌, sym, true, List, [], ◌∷◌, ◌++◌,
  arith, ◌==◌, if◌then◌else◌, length, get_or, get_or-set_ne, set, length-set, some, Bool-cases, inl,
  inr,
}
use vlc_whisper.Common.Ring.{window-set_out}
use vlc_whisper.Spsc.{SpscQueue, AudioChunk, blank_chunk, places, next_index, create}
use vlc_whisper.Spsc.Inv.{
  IsValid, count, contents, length-contents, create-IsValid, distance-lt, head-distance,
  next_index-eq,
}
use vlc_whisper.Spsc.Refine.{contents-publish, contents-consume}

-- Where the producer stands in vw_spsc_queue_push: before it, behind the test for a full ring,
-- behind the write of the chunk.
pub data Producer : Type 0 where
  outside : Producer
  tested : AudioChunk → ℕ → Producer
  written : AudioChunk → ℕ → Producer

-- Where the consumer stands in vw_spsc_queue_pop: before it, behind the test for an empty ring,
-- behind the copy of the chunk.
pub data Consumer : Type 0 where
  outside : Consumer
  tested : ℕ → Consumer
  copied : ℕ → AudioChunk → Consumer

pub record Machine : Type 0 where
  pub queue : SpscQueue
  pub producer : Producer
  pub consumer : Consumer
  pub pushed : List AudioChunk
  pub popped : List AudioChunk
  pub refused : List AudioChunk

-- The next access of one thread; a call of `push` begins with its chunk.
pub data Access : Type 0 where
  produce : AudioChunk → Access
  consume : Access

produce_at : Machine → AudioChunk → Producer → Machine
produce_at m chunk Producer.outside =
    let q = m.queue in
    let next_head = next_index q q.head in
    if next_head == q.tail
    then record m {
      queue = record q { audio_dropped_us = (q.audio_dropped_us + chunk.duration_us) % 2 ^ 64 };
      refused = m.refused ++ chunk ∷ [];
    }
    else record m { producer = Producer.tested chunk next_head }
produce_at m chunk (Producer.tested mine next_head) =
    let q = m.queue in
    record m {
      queue = record q { ring_buffer = set q.ring_buffer q.head mine };
      producer = written mine next_head;
    }
produce_at m chunk (Producer.written mine next_head) =
    let q = m.queue in
    record m {
      queue = record q { head = next_head };
      producer = Producer.outside;
      pushed = m.pushed ++ mine ∷ [];
    }

consume_at : Machine → Consumer → Machine
consume_at m Consumer.outside =
    let q = m.queue in
    if q.tail == q.head then m else record m { consumer = Consumer.tested q.tail }
consume_at m (Consumer.tested curr_tail) = record m {
  consumer = copied curr_tail (get_or m.queue.ring_buffer curr_tail blank_chunk);
}
consume_at m (Consumer.copied curr_tail chunk) =
    let q = m.queue in
    record m {
      queue = record q { tail = next_index q curr_tail };
      consumer = Consumer.outside;
      popped = m.popped ++ chunk ∷ [];
    }

unfoldable pub access : Machine → Access → Machine
unfolding produce_at consume_at
access m (produce chunk) = produce_at m chunk m.producer
access m consume = consume_at m m.consumer

unfoldable pub run : Machine → List Access → Machine
unfolding access
run m [] = m
run m (a ∷ as') = run (access m a) as'

abbrev pub start : SpscQueue → Machine
start q = record {
  queue = q;
  producer = Producer.outside;
  consumer = Consumer.outside;
  pushed = [];
  popped = [];
  refused = [];
}

-- uint64_t sum of the durations.
abbrev pub total_us : ℕ → List AudioChunk → ℕ
total_us from [] = from
total_us from (c ∷ cs) = total_us ((from + c.duration_us) % 2 ^ 64) cs

-- What a producer inside `push` relies on.
abbrev ProducerInv : SpscQueue → Producer → Type 0
ProducerInv q Producer.outside = Unit {0}
ProducerInv q (Producer.tested chunk next_head) =
    (next_head ≡ next_index q q.head) × (next_head ≢ q.tail)
ProducerInv q (Producer.written chunk next_head) =
    (next_head ≡ next_index q q.head)
    × (next_head ≢ q.tail)
    × (set q.ring_buffer q.head chunk ≡ q.ring_buffer)

-- What a consumer inside `pop` relies on.
abbrev ConsumerInv : SpscQueue → Consumer → Type 0
ConsumerInv q Consumer.outside = Unit {0}
ConsumerInv q (Consumer.tested curr_tail) = (curr_tail ≡ q.tail) × (q.tail ≢ q.head)
ConsumerInv q (Consumer.copied curr_tail chunk) =
    (curr_tail ≡ q.tail) × (q.tail ≢ q.head) × (chunk ≡ get_or q.ring_buffer q.tail blank_chunk)

record Inv (m : Machine) : Type 0 where
  valid : IsValid m.queue
  producer_inv : ProducerInv m.queue m.producer
  consumer_inv : ConsumerInv m.queue m.consumer
  history : m.pushed ≡ m.popped ++ contents m.queue
  dropped : m.queue.audio_dropped_us ≡ total_us 0 m.refused

set-set : (xs : List AudioChunk) (i : ℕ) (c : AudioChunk) → set (set xs i c) i c ≡ set xs i c
set-set [] i c = refl
set-set (x ∷ xs) zero c = refl
set-set (x ∷ xs) (suc i) c = ap (◌∷◌ x) (set-set xs i c)

abbrev store : SpscQueue → AudioChunk → SpscQueue
store q chunk = record q { ring_buffer = set q.ring_buffer q.head chunk }

abbrev refuse : SpscQueue → AudioChunk → SpscQueue
refuse q chunk = record q { audio_dropped_us = (q.audio_dropped_us + chunk.duration_us) % 2 ^ 64 }

abbrev publish : SpscQueue → SpscQueue
publish q = record q { head = next_index q q.head }

abbrev release : SpscQueue → SpscQueue
release q = record q { tail = next_index q q.tail }

-- The write of a chunk does not touch the queued ones.
contents-store :
    (q : SpscQueue) (chunk : AudioChunk) → IsValid q → contents (store q chunk) ≡ contents q
contents-store q chunk v =
    window-set_out blank_chunk q.ring_buffer (places q) q.tail (count q) (count q) q.head chunk
      (omega arith) (distance-lt (places q) q.head q.tail v.head_in v.tail_in)
      (head-distance (places q) q.head q.tail v.head_in v.tail_in)

contents-published :
    (q : SpscQueue) (chunk : AudioChunk)
    → IsValid q
    → next_index q q.head ≢ q.tail
    → set q.ring_buffer q.head chunk ≡ q.ring_buffer
    → contents (publish q) ≡ contents q ++ chunk ∷ []
contents-published q chunk v ne e =
    ap (λ ring. contents (record q { ring_buffer = ring; head = next_index q q.head })) (sym e)
    ∙ contents-publish q chunk v ne

-- Different places have different next places.
next_ne : (n h t : ℕ) → h < n → t < n → t ≢ h → (h + 1) % n ≢ (t + 1) % n
next_ne n h t lh lt ne e = ground (arith, next_index-eq n h lh, next_index-eq n t lt)

ConsumerInv-store :
    (q : SpscQueue) (chunk : AudioChunk) (c : Consumer)
    → ConsumerInv q c
    → ConsumerInv (store q chunk) c
ConsumerInv-store q chunk Consumer.outside h = tt
ConsumerInv-store q chunk (Consumer.tested t) h = h
ConsumerInv-store q chunk (Consumer.copied t c) (e, ne, read) =
    (e, ne, read ∙ sym (get_or-set_ne q.ring_buffer chunk blank_chunk (λ same. ne (sym same))))

ConsumerInv-publish :
    (q : SpscQueue) (c : Consumer)
    → next_index q q.head ≢ q.tail
    → ConsumerInv q c
    → ConsumerInv (publish q) c
ConsumerInv-publish q Consumer.outside ne h = tt
ConsumerInv-publish q (Consumer.tested t) ne (e, other) = (e, λ same. ne (sym same))
ConsumerInv-publish q (Consumer.copied t c) ne (e, other, read) = (e, λ same. ne (sym same), read)

ProducerInv-release :
    (q : SpscQueue) (p : Producer)
    → IsValid q
    → q.tail ≢ q.head
    → ProducerInv q p
    → ProducerInv (release q) p
ProducerInv-release q Producer.outside v ne h = tt
ProducerInv-release q (Producer.tested c next) v ne (e, other) =
    (e, λ same. next_ne (places q) q.head q.tail v.head_in v.tail_in ne (sym e ∙ same))
ProducerInv-release q (Producer.written c next) v ne (e, other, kept) =
    (e, λ same. next_ne (places q) q.head q.tail v.head_in v.tail_in ne (sym e ∙ same), kept)

ConsumerInv-refuse :
    (q : SpscQueue) (us : AudioChunk) (c : Consumer) → ConsumerInv q c → ConsumerInv (refuse q us) c
ConsumerInv-refuse q us Consumer.outside h = tt
ConsumerInv-refuse q us (Consumer.tested t) h = h
ConsumerInv-refuse q us (Consumer.copied t c) h = h

total_us-snoc :
    (from : ℕ) (cs : List AudioChunk) (c : AudioChunk)
    → total_us from (cs ++ c ∷ []) ≡ (total_us from cs + c.duration_us) % 2 ^ 64
total_us-snoc from [] c = refl
total_us-snoc from (x ∷ cs) c = total_us-snoc ((from + x.duration_us) % 2 ^ 64) cs c

next-in : (q : SpscQueue) (i : ℕ) → next_index q i < places q
next-in q i = omega arith

produce-Inv :
    (m : Machine) (chunk : AudioChunk) (p : Producer)
    → m.producer ≡ p
    → Inv m
    → Inv (produce_at m chunk p)
unfolding produce_at
produce-Inv m chunk Producer.outside e v =
    elim (Bool-cases (next_index m.queue m.queue.head == m.queue.tail)) [
      | inl full ↦ rw full (record {
        valid = record {
          storage = v.valid.storage;
          head_in = v.valid.head_in;
          tail_in = v.valid.tail_in;
        };
        producer_inv = subst (ProducerInv (refuse m.queue chunk)) (sym e) tt;
        consumer_inv = ConsumerInv-refuse m.queue chunk m.consumer v.consumer_inv;
        history = v.history;
        dropped =
            ap (λ us. (us + chunk.duration_us) % 2 ^ 64) v.dropped
            ∙ sym (total_us-snoc 0 m.refused chunk);
      })
      | inr free ↦ rw free (record {
        valid = v.valid;
        producer_inv = (refl, ground arith);
        consumer_inv = v.consumer_inv;
        history = v.history;
        dropped = v.dropped;
      })
    ]
produce-Inv m chunk (Producer.tested mine next) e v =
    let (next-eq, ne) = rw e at v.producer_inv in
    let q = m.queue in
    record {
      valid = record {
        storage = length-set q.ring_buffer q.head mine ∙ v.valid.storage;
        head_in = v.valid.head_in;
        tail_in = v.valid.tail_in;
      };
      producer_inv = (next-eq, ne, set-set q.ring_buffer q.head mine);
      consumer_inv = ConsumerInv-store q mine m.consumer v.consumer_inv;
      history = v.history ∙ ap (◌++◌ m.popped) (sym (contents-store q mine v.valid));
      dropped = v.dropped;
    }
produce-Inv m chunk (Producer.written mine next) e v =
    let q = m.queue in
    let (next-eq, next-ne, kept) = rw e at v.producer_inv in
    let ne : next_index q q.head ≢ q.tail = λ same. next-ne (next-eq ∙ same) in
    rw next-eq (record {
      valid = record {
        storage = v.valid.storage;
        head_in = next-in q q.head;
        tail_in = v.valid.tail_in;
      };
      producer_inv = tt;
      consumer_inv = ConsumerInv-publish q m.consumer ne v.consumer_inv;
      history =
          ap (λ ps. ps ++ mine ∷ []) v.history
          ∙ append_assoc m.popped (contents q) (mine ∷ [])
          ∙ ap (◌++◌ m.popped) (sym (contents-published q mine v.valid ne kept));
      dropped = v.dropped;
    })

consume-Inv : (m : Machine) (c : Consumer) → m.consumer ≡ c → Inv m → Inv (consume_at m c)
unfolding consume_at
consume-Inv m Consumer.outside e v = elim (Bool-cases (m.queue.tail == m.queue.head)) [
  | inl empty ↦ rw empty v
  | inr more ↦ rw more (record {
    valid = v.valid;
    producer_inv = v.producer_inv;
    consumer_inv = (refl, ground arith);
    history = v.history;
    dropped = v.dropped;
  })
]
consume-Inv m (Consumer.tested t) e v =
    let (at-tail, ne) = rw e at v.consumer_inv in
    record {
      valid = v.valid;
      producer_inv = v.producer_inv;
      consumer_inv = (at-tail, ne, ap (λ i. get_or m.queue.ring_buffer i blank_chunk) at-tail);
      history = v.history;
      dropped = v.dropped;
    }
consume-Inv m (Consumer.copied t chunk) e v =
    let (at-tail, ne, read) = rw e at v.consumer_inv in
    rw at-tail (record {
      valid = record {
        storage = v.valid.storage;
        head_in = v.valid.head_in;
        tail_in = next-in m.queue m.queue.tail;
      };
      producer_inv = ProducerInv-release m.queue m.producer v.valid ne v.producer_inv;
      consumer_inv = tt;
      history =
          v.history
          ∙ ap (◌++◌ m.popped) (contents-consume m.queue v.valid ne)
          ∙ ap (λ c. m.popped ++ c ∷ contents (release m.queue)) (sym read)
          ∙ sym (append_assoc m.popped (chunk ∷ []) (contents (release m.queue)));
      dropped = v.dropped;
    })

access-Inv : (m : Machine) (a : Access) → Inv m → Inv (access m a)
unfolding access
access-Inv m (produce chunk) v = produce-Inv m chunk m.producer refl v
access-Inv m consume v = consume-Inv m m.consumer refl v

run-Inv : (m : Machine) (as' : List Access) → Inv m → Inv (run m as')
unfolding run
run-Inv m [] v = v
run-Inv m (a ∷ as') v = run-Inv (access m a) as' (access-Inv m a v)

capacity-access :
    (m : Machine) (a : Access) → (access m a).queue.capacity_chunks ≡ m.queue.capacity_chunks
unfolding access
capacity-access m (produce chunk) = ground arith
capacity-access m consume = ground arith

capacity-run :
    (m : Machine) (as' : List Access) → (run m as').queue.capacity_chunks ≡ m.queue.capacity_chunks
unfolding run
capacity-run m [] = refl
capacity-run m (a ∷ as') = capacity-run (access m a) as' ∙ capacity-access m a

-- However the two threads interleave on a new queue, the chunks that `push` has accepted are those
-- that `pop` has returned followed by those in the ring, in order: none is lost, repeated or torn.
-- The ring holds at most `capacity` chunks, and the dropped time is the sum of the durations of the
-- refused chunks, modulo 2^64.
pub threads_fifo :
    (capacity : ℕ) (q : SpscQueue) (schedule : List Access)
    → create capacity true true ≡ some q
    → let m = run (start q) schedule in
      (m.pushed ≡ m.popped ++ contents m.queue)
      × (length (contents m.queue) ≤ capacity)
      × (m.queue.audio_dropped_us ≡ total_us 0 m.refused)
threads_fifo capacity q schedule e =
    let (valid, empty, room, zero_us) = create-IsValid capacity true true q e in
    let begin : Inv (start q) = record {
      valid = valid;
      producer_inv = tt;
      consumer_inv = tt;
      history = sym empty;
      dropped = zero_us;
    } in
    let v = run-Inv (start q) schedule begin in
    let m = run (start q) schedule in
    (
      v.history,
      omega (
        arith,
        length-contents m.queue,
        distance-lt (places m.queue) m.queue.head m.queue.tail v.valid.head_in v.valid.tail_in,
        capacity-run (start q) schedule,
        room,
      ),
      v.dropped,
    )
