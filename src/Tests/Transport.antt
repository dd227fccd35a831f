-- ===== src/Tests/Transport.antt =====
-- Concrete instances of the properties of the store lock, the control stream and the response body.
use ceal_cli.Base.{
  ℕ, String, List, [], ◌∷◌, length, all, map, Option, none, some, Bool, true, false, ◌≡◌, refl, inl,
  ltb, if◌then◌else◌,
}
use ceal_cli.Base.Outcome.{ok, err}
use ceal_cli.StoreLock.Reclaim.{owned, quarantine_stale_lock, remove_stale_lock, acquire_lock}
use ceal_cli.StoreLock.Tombstones.{no_step, next_step, attempts, reclaimed_once}
use ceal_cli.StoreLock.{
  Owner, Paths, Attempt, alive, create_lock, release_lock, read_lock_owner, candidate,
}
use ceal_cli.StoreLock.Holding.{IsHeld, owner}
use ceal_cli.StoreLock.Waiting.{WaitsUntil, acquire_busy}
use ceal_cli.ControlStream.{check_frame, run_stream}
use ceal_cli.ControlStream.Framing.{is_good, frames_of_chunks}
use ceal_cli.ResponseBody.{
  digits, Read, chunk, no_value, too_large, check_declared, read_bounded_response_body,
}
use ceal_cli.ResponseBody.Reading.{bytes, read_whole_body}

abbrev first_attempt : Attempt
first_attempt = record {
  pid = 41;
  nonce = "0123456789abcdef0123456789abcdef";
  inode = "1-1";
  candidate_written = true;
  rename_fails = false;
  probe = λ pid. alive;
}

abbrev second_attempt : Attempt
second_attempt = record first_attempt {
  pid = 42;
  nonce = "ffffffffffffffffffffffffffffffff";
  inode = "1-2";
}

abbrev other : String
other = "ffffffffffffffffffffffffffffffff"

abbrev free : Paths
free = record { lock = none; reclaimed = [] }

record_reads : read_lock_owner (candidate first_attempt).owner_file ≡ some (owner first_attempt)
unfolding read_lock_owner
record_reads = refl

-- The second process tries, finds the holder alive, and releases a nonce of its own.
abbrev taken : Paths
taken = (create_lock first_attempt free).1

abbrev tried : Paths
tried = (create_lock second_attempt taken).1

abbrev waited_for : Paths
waited_for = (remove_stale_lock second_attempt tried).1

abbrev left : Paths
left = release_lock "ffffffffffffffffffffffffffffffff" waited_for

-- The first process is found dead and quarantined; the second one takes the lock.
abbrev dead : Owner
dead = owner first_attempt

abbrev quarantined_paths : Paths
quarantined_paths = (quarantine_stale_lock second_attempt (owned dead) taken).1

abbrev taken_again : Paths
taken_again = (create_lock second_attempt quarantined_paths).1

works_once : (quarantine_stale_lock second_attempt (owned dead) taken).0 ≡ ok true
unfolding quarantine_stale_lock create_lock
works_once = refl

is_taken : taken.lock ≡ some (candidate first_attempt)
unfolding create_lock
is_taken = refl

reclaimed_once_example :
    (quarantine_stale_lock first_attempt (owned dead) taken_again).1 ≡ taken_again
reclaimed_once_example =
    reclaimed_once second_attempt first_attempt dead taken taken_again (candidate first_attempt)
      is_taken refl works_once
      (next_step quarantined_paths taken_again taken_again
        (attempts second_attempt quarantined_paths) (no_step taken_again))

abbrev no_numbers : String → Option ℕ
no_numbers s = none

abbrev reads : List Read
reads = chunk (1 ∷ 2 ∷ []) ∷ no_value ∷ chunk (3 ∷ []) ∷ []

declared_passes : check_declared no_numbers digits 3 (some "3") ≡ ok tt
unfolding check_declared
declared_passes = refl

read_whole_body_example :
    read_bounded_response_body no_numbers 3 digits (some "3") (some reads)
    ≡ (if ltb 3 (length (bytes reads)) then err too_large else ok (bytes reads))
read_whole_body_example = read_whole_body no_numbers 3 digits (some "3") reads declared_passes refl

reads_body :
    read_bounded_response_body no_numbers 3 digits (some "3") (some reads) ≡ ok (1 ∷ 2 ∷ 3 ∷ [])
unfolding read_bounded_response_body check_declared ceal_cli.ResponseBody.read_chunks
    ceal_cli.ResponseBody.merge_chunks
reads_body = refl

abbrev body : List ℕ
body = 1 ∷ 2 ∷ 3 ∷ []

first-IsHeld : IsHeld (owner first_attempt) (candidate first_attempt)
first-IsHeld = record { closed = refl; filled = refl; named = record_reads }

taken_by : taken.lock ≡ some (candidate first_attempt)
unfolding create_lock
taken_by = refl

abbrev two_turns : List (Attempt × ℕ)
two_turns = (second_attempt, 1_099) ∷ (second_attempt, 1_100) ∷ []

acquire_busy_example :
    ((acquire_lock 1_000 100 two_turns taken).1 ≡ taken)
    × WaitsUntil 1_100 two_turns (acquire_lock 1_000 100 two_turns taken).0
acquire_busy_example =
    acquire_busy (owner first_attempt) (candidate first_attempt) taken taken_by first-IsHeld 1_000
      100 two_turns (inl refl, (inl refl, tt))

abbrev any_frame : List ℕ → Bool
any_frame frame = true

abbrev stream_chunks : List (List ℕ)
stream_chunks = (65 ∷ []) ∷ (66 ∷ 10 ∷ 67 ∷ []) ∷ (10 ∷ []) ∷ []

abbrev stream_frames : List (List ℕ)
stream_frames = (65 ∷ 66 ∷ []) ∷ (67 ∷ []) ∷ []

frames-good : all (is_good 2 any_frame) stream_frames ≡ true
unfolding check_frame
frames-good = refl

frames_of_chunks_example :
    run_stream 2 any_frame (map some stream_chunks) (some []) [] ≡ (ok tt, stream_frames)
frames_of_chunks_example = frames_of_chunks 2 any_frame stream_chunks stream_frames refl frames-good
