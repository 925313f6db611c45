-- ===== src/Worker/Posts.antt =====
-- What the worker posts: its frames stand in the order of their sequence numbers, and its captions are
-- those of one session. These are the parts of vw_worker_run of worker/src/vw_worker.c that post.
use vlc_whisper.Common.{
  ℕ, ◌+◌, ◌≤◌, ◌<◌, ◌≡◌, refl, sym, ap, ◌∙◌, Option, none, some, List, [], ◌∷◌, ◌++◌, arith,
  append-nil, append_assoc, All,
}
use vlc_whisper.Protocol.Types.{Message}
use vlc_whisper.Protocol.Encode.{encode_payload}
use vlc_whisper.Worker.Run.{frame_of, send_payload, post}
use vlc_whisper.Worker.Run.State.{Run, Host, Outgoing}

-- Frames with rising sequence numbers, above `low` and up to `high`.
unfoldable pub IsRising : ℕ → List Outgoing → ℕ → Type 0
IsRising low [] high = low ≤ high
IsRising low (f ∷ fs) high = (low < f.header.sequence) × IsRising f.header.sequence fs high

pub IsRising-append :
    (low mid high : ℕ) (fs gs : List Outgoing)
    → IsRising low fs mid
    → IsRising mid gs high
    → IsRising low (fs ++ gs) high
unfolding IsRising
IsRising-append low mid high [] [] p q = omega arith
IsRising-append low mid high [] (g ∷ gs) p q = (omega (arith, p, q.0), q.1)
IsRising-append low mid high (f ∷ fs) gs p q =
    (p.0, IsRising-append f.header.sequence mid high fs gs p.1 q)

pub All-append {ℓ κ} :
    {A : Type ℓ} (P : A → Type κ) (xs ys : List A) → All P xs → All P ys → All P (xs ++ ys)
All-append P [] ys p q = q
All-append P (x ∷ xs) ys p q = (p.0, All-append P xs ys p.1 q)

pub All-map {ℓ κ} :
    {A : Type ℓ} (P Q : A → Type κ) (f : (a : A) → P a → Q a) (xs : List A) → All P xs → All Q xs
All-map P Q f [] p = tt
All-map P Q f (x ∷ xs) p = (f x p.0, All-map P Q f xs p.1)

-- Between two states new frames are posted, whose messages have `P`.
pub record Posts (P : Message → Type 0) (seq : ℕ) (old : List Outgoing) (seq' : ℕ)
    (now : List Outgoing) : Type 0 where
  pub added : List Outgoing
  pub split : now ≡ old ++ added
  pub rising : IsRising seq added seq'
  pub each : All (λ f. P f.message) added

-- The worker is authenticated in both of two states or in none, and posts in between.
abbrev pub PostsOf : (Message → Type 0) → Run → Run → Type 0
PostsOf P w w' =
    (w'.authenticated ≡ w.authenticated) × Posts P w.sequence w.posted w'.sequence w'.posted

pub nothing-Posts : (P : Message → Type 0) (seq : ℕ) (old : List Outgoing) → Posts P seq old seq old
nothing-Posts P seq old = record {
  added = [];
  split = sym (append-nil old);
  rising = unfold IsRising in omega arith;
  each = tt;
}

pub Posts-then :
    {P : Message → Type 0} {s t u : ℕ} {xs ys zs : List Outgoing}
    → Posts P s xs t ys
    → Posts P t ys u zs
    → Posts P s xs u zs
Posts-then {P} {s} {t} {u} {xs} {ys} {zs} p q = record {
  added = p.added ++ q.added;
  split = q.split ∙ ap (λ l. l ++ q.added) p.split ∙ append_assoc xs p.added q.added;
  rising = IsRising-append s t u p.added q.added p.rising q.rising;
  each = All-append (λ f. P f.message) p.added q.added p.each q.each;
}

pub PostsOf-same : (P : Message → Type 0) (w : Run) → PostsOf P w w
PostsOf-same P w = (refl, nothing-Posts P w.sequence w.posted)

pub PostsOf-then :
    (P : Message → Type 0) (w u v : Run) → PostsOf P w u → PostsOf P u v → PostsOf P w v
PostsOf-then P w u v p q = (q.0 ∙ p.0, Posts-then p.1 q.1)

send_payload-Posts :
    (P : Message → Type 0) (m : Message) (host : Host) (w : Run) (payload : Option (List ℕ))
    → P m
    → PostsOf P w (send_payload m host w payload).1
unfolding send_payload
send_payload-Posts P m host w none p = PostsOf-same P w
send_payload-Posts P m host w (some payload) p = (
  refl,
  record {
    added = frame_of m payload (w.sequence + 1) ∷ [];
    split = refl;
    rising = unfold IsRising in (omega arith, omega arith);
    each = (p, tt);
  },
)

pub post-Posts :
    (P : Message → Type 0) (room : ℕ) (m : Message) (host : Host) (w : Run)
    → P m
    → PostsOf P w (post room m host w).1
unfolding post
post-Posts P room m host w p = send_payload-Posts P m host w (encode_payload m room) p
