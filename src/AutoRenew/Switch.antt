-- ===== src/AutoRenew/Switch.antt =====
-- internal/store/autorenew.go: the switch that turns the renewal of a line on and off.
use qing_zhou.Common.{
  ℕ, ◌≡◌, String, Bool, true, false, not, ◌&&◌, Option, none, some, List, last, update_where,
}
use qing_zhou.Bucket.{Bucket, is_retired}
use qing_zhou.Queue.{in_line}

module _ (user_id : ℕ) (key : String) (enabled : Bool) (now : ℕ) where
  abbrev lives : Bucket → Bool
  lives b = in_line user_id key b && not (is_retired b.status)

  abbrev switched : Bucket → Bucket
  switched b = record b { auto_renew = enabled; updated_at = now }

  -- the setting that the newest row of a line gives to the next one
  abbrev setting : Option Bucket → Bool
  setting none = true
  setting (some b) = b.auto_renew

  abbrev newest : List Bucket → Option Bucket
  newest rows = last lives (update_where lives switched rows)

  -- the newest row, of a line that has one, carries the setting
  abbrev Carries : Bool → Option Bucket → Type 0
  Carries has_one none = has_one ≡ false
  Carries has_one (some y) = y.auto_renew ≡ enabled
