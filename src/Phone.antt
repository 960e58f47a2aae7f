-- ===== src/Phone.antt =====
-- 进程/task_phone.c: a telephone call as a state machine that goes on after every 50 rounds of its
-- loop, and that a message of the interface ends.
pub mod Rounds
pub mod Ui
mod Tests
use study_c_know.Common.{
  ℕ, zero, suc, ◌+◌, Bool, true, false, ◌&&◌, Option, none, some, List, [], ◌∷◌, get_or, ◌==◌, leb,
  if◌then◌else◌,
}
use study_c_know.Common.Int.{ℤ, pos, negsuc, ◌==ℤ◌, ltb_ℤ}
use study_c_know.Device.{Io, queue, pure, ◌>>=◌, ◌>>◌, ask, with_held, acquire, lose, fetch, branch}

-- The calls of both programs, on the queue of their own but for `msgget_phone` and `msgsnd`.
pub data Call : Type 0 where
  msgget_create msgrcv msgctl_remove msgget_phone usleep select getchar : Call
  msgsnd : (qid : ℤ) → Call

-- enum TASK_PHONE_STATE
pub data PhoneState : Type 0 where
  no_call ring talk hangup : PhoneState

-- The global `phone_state`, and `time` of main.
pub record Phone : Type 0 where
  pub phone_state : PhoneState
  pub ticks : ℕ

-- TIME_NEXT
abbrev pub time_next : ℕ
time_next = 50

-- The state after the time of a state is over.
unfoldable pub next_state : PhoneState → PhoneState
next_state ring = talk
next_state talk = hangup
next_state no_call = ring
next_state hangup = ring

-- A message was read, and its type is MSG_TYPE_UI_QUIT, which is 1.
abbrev pub is_quit : ℤ × List ℕ → Bool
is_quit (ret, msg) = leb_zero ret && (get_or msg 0 0 == 1)
  where
    leb_zero : ℤ → Bool
    leb_zero (pos n) = true
    leb_zero (negsuc n) = false

-- set_state(TASK_PHONE_STATE_HANGUP) on a quit message
unfoldable pub hear : Bool → Phone → Phone
hear quit p = if quit then record p { phone_state = hangup } else p

-- time++, and the next state when time is TIME_NEXT
unfoldable pub advance : Phone → Phone
advance p =
    if leb time_next (suc p.ticks)
    then record { phone_state = next_state p.phone_state; ticks = 0 }
    else record p { ticks = suc p.ticks }

abbrev pub is_hangup : PhoneState → Bool
is_hangup hangup = true
is_hangup _ = false

-- After the loop: the queue is removed, and the status of the program.
unfoldable pub remove_queue : Io Call ℤ
remove_queue = do
  ret ← with_held queue msgctl_remove
  branch (ltb_ℤ ret (pos 0)) (pure (pos 1)) (do lose queue; pure (pos 0))

-- The message to the interface goes to the queue number 1, for `qid_ui` is the value of a test.
unfoldable pub send_quit : Io Call ℤ
send_quit = do
  qid ← ask msgget_phone
  branch (ltb_ℤ (pos 0) qid) (ask (msgsnd (pos 1)) >>= λ _. remove_queue) remove_queue

-- while (1), with `phone_state` and `time`
unfoldable pub round : ℕ → Phone → Io Call ℤ
round zero p = λ _ _. none
round (suc fuel) p = do
  msg ← fetch queue msgrcv
  branch (is_hangup (advance (hear (is_quit msg) p)).phone_state) send_quit
      (ask usleep >>= λ _. round fuel (advance (hear (is_quit msg) p)))

-- The phone when the program starts.
abbrev pub idle : Phone
idle = record { phone_state = no_call; ticks = 0 }

unfoldable pub main : ℕ → Io Call ℤ
main fuel = do
  ret ← acquire queue msgget_create
  branch (ret ==ℤ negsuc 0) (pure (pos 1)) (round fuel idle)
