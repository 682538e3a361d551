-- ===== src/Auth/Tests.antt =====
-- Tests of the one-time codes, and their theorems at concrete inputs. The hash is the identity here.
use spoo.Base.{
  ℕ, ◌+◌, ◌<◌, ◌≤◌, String, ◌≡◌, ◌↔◌, refl, true, false, some, List, [], ◌∷◌, ok, err, arith,
}
use spoo.Base.Collection.{Collection, find_and_update}
use spoo.Base.Memory.{by_id}
use spoo.Auth.{active, UserDoc, VerificationTokenDoc, email_verify}
use spoo.Auth.Tokens.{
  consume_if_unused, increment_attempts, find_latest_by_user, count_recent, used,
}
use spoo.Auth.Otp.{check_token, verify_otp, new_token, invalid_or_expired}
use spoo.Auth.Requests.{send_verification, already_verified}
use spoo.Auth.Consume.{increment, consume, write_all, consume_if_unused-once}
use spoo.Auth.Verify.{Passes, verify_otp-ok_iff}
use spoo.Auth.Limits.{Issue, reset_all, request_password_reset-unlimited}
use spoo.Auth.Guesses.{looked, settled, here, next, Reaches, guesses-Bounded}
use spoo.Auth.Created
use spoo.Auth.Created.{Requests, created-Bounded}

abbrev db : Collection ℕ VerificationTokenDoc
db = by_id {D = VerificationTokenDoc}

abbrev same_text : String → String
same_text c = c

abbrev token : VerificationTokenDoc
token = new_token 7 "a@b.c" "123456" email_verify 1000

abbrev spoiled : VerificationTokenDoc
spoiled = record token { attempts = 4 }

abbrev empty : db.State
empty = ([], tt)

abbrev stored : db.State
stored = ((1, token) ∷ [], (refl, tt))

abbrev spoiled_store : db.State
spoiled_store = ((1, spoiled) ∷ [], (refl, tt))

abbrev user : UserDoc
user = record {
  id = 7;
  email = "a@b.c";
  email_verified = false;
  password_hash = some "old";
  password_set = true;
  status = active;
}

abbrev five : List Issue
five =
    record { code = "1"; id = 1; now = 1000 }
    ∷ record { code = "2"; id = 2; now = 1001 }
    ∷ record { code = "3"; id = 3; now = 1002 }
    ∷ record { code = "4"; id = 4; now = 1003 }
    ∷ record { code = "5"; id = 5; now = 1004 }
    ∷ []

wrong_code :
    (verify_otp same_text db 7 "000000" email_verify 1100 stored).0 ≡ err invalid_or_expired
unfolding verify_otp find_latest_by_user
wrong_code = refl

already_verified_test :
    (send_verification same_text db
      (some (record user { email_verified = true }))
      true
      "1"
      1
      1000
      empty).0
    ≡ err already_verified
unfolding send_verification
already_verified_test = refl

consume_if_unused-once_example :
    (consume_if_unused db 1 1200
      (write_all db (increment 1 ∷ consume 2 1150 ∷ []) (consume_if_unused db 1 1100 stored).1)).0
    ≡ false
unfolding consume_if_unused find_and_update
consume_if_unused-once_example =
    consume_if_unused-once db 1 1100 1200 stored (increment 1 ∷ consume 2 1150 ∷ []) refl
      (tt, (tt, tt))

latest_test : find_latest_by_user db 7 email_verify stored ≡ some (1, token)
unfolding find_latest_by_user
latest_test = refl

verify_otp-ok_iff_example :
    (verify_otp same_text db 7 "123456" email_verify 1100 stored
      ≡ (ok tt, db.put 1 (used 1100 token) stored))
    ↔ Passes same_text token "123456" 1100
verify_otp-ok_iff_example =
    verify_otp-ok_iff same_text db 7 "123456" email_verify 1100 stored 1 token latest_test

request_password_reset-unlimited_example : (reset_all same_text db user five empty).0 ≡ 5
request_password_reset-unlimited_example =
    request_password_reset-unlimited same_text db user five empty refl (omega arith)

-- Two wrong guesses that both read four attempts are both counted.
abbrev raced : db.State
raced =
    (check_token same_text db (1, spoiled) "1" 1101
      (check_token same_text db (1, spoiled) "0" 1100 spoiled_store).1).1

raced_test : db.get raced 1 ≡ some (record token { attempts = 6 })
unfolding check_token increment_attempts find_and_update
raced_test = refl

spoiled_found : find_latest_by_user db 7 email_verify spoiled_store ≡ some (1, spoiled)
unfolding find_latest_by_user
spoiled_found = refl

race : Reaches same_text db 2 (spoiled_store, []) (raced, [])
race =
    next
      (next
        (next
          (next here
            (looked 7 1 1100 email_verify spoiled "0" spoiled_store [] spoiled_found (omega arith)))
          (looked 7 1 1101 email_verify spoiled "1" spoiled_store
            (record { id = 1; token = spoiled; code = "0"; now = 1100 } ∷ []) spoiled_found
            (omega arith)))
        (settled (record { id = 1; token = spoiled; code = "0"; now = 1100 })
          (record { id = 1; token = spoiled; code = "1"; now = 1101 } ∷ []) [] spoiled_store))
      (settled (record { id = 1; token = spoiled; code = "1"; now = 1101 }) [] []
        (check_token same_text db (1, spoiled) "0" 1100 spoiled_store).1)

spoiled_few : (d : VerificationTokenDoc) → db.get spoiled_store 1 ≡ some d → d.attempts < 5 + 2
spoiled_few d h = ground (arith, h)

guesses-Bounded_example : 6 ≤ 4 + 2
guesses-Bounded_example =
    guesses-Bounded same_text db 2 1 spoiled_store raced [] (record token { attempts = 6 })
      spoiled_few race raced_test

abbrev first_counted : Requests db.State
first_counted = record {
  tokens = empty;
  made = 0;
  counts = count_recent db 7 email_verify 60 1000 empty ∷ [];
}

abbrev first_made : Requests db.State
first_made =
    Created.after_answer same_text db 1 7 email_verify 900
      (count_recent db 7 email_verify 60 1000 empty) [] [] "a@b.c" "1" 1 1001 0 empty

one_request :
    Created.Reaches same_text db 1 7 email_verify 900
      (record { tokens = empty; made = 0; counts = [] })
      first_made
one_request =
    Created.next
      (Created.next Created.here (
        Created.counted 1000 (record { tokens = empty; made = 0; counts = [] }) (omega arith)
          (omega arith) (omega arith)))
      (Created.answered (count_recent db 7 email_verify 60 1000 empty) [] [] "a@b.c" "1" 1 1001 0
        empty (omega arith) refl)

made_test : first_made.made ≡ 1
unfolding count_recent
made_test = refl

created-Bounded_example : first_made.made ≤ 2 + 1
created-Bounded_example =
    created-Bounded same_text db 1 7 email_verify 900 empty first_made one_request
