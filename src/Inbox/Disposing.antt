-- ===== src/Inbox/Disposing.antt =====
-- `ack` and `quarantine` that return, as the search that they make.
use orcastork.Base.{ok, String, ℕ, ◌≡◌, arith}
use orcastork.Inbox.{InboxState, ack, quarantine, take_claimed, guard_epoch}

pub ack-taken :
    (entry_id : String) (epoch : ℕ) (s s' : InboxState)
    → ack entry_id epoch s ≡ (ok tt, s')
    → s'.messages ≡ (take_claimed entry_id s.messages).1
unfolding ack guard_epoch
ack-taken entry_id epoch s s' h = ground arith

pub quarantine-taken :
    (entry_id reason : String) (epoch : ℕ) (s s' : InboxState)
    → quarantine entry_id reason epoch s ≡ (ok tt, s')
    → s'.messages ≡ (take_claimed entry_id s.messages).1
unfolding quarantine guard_epoch
quarantine-taken entry_id reason epoch s s' h = ground arith
