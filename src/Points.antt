-- ===== src/Points.antt =====
-- internal/store/points.go: `AdjustPoints`, and the ledger row that every change of a balance writes.
pub mod Ledger
use qing_zhou.Common.{
  ℕ, ◌+◌, String, Bool, true, false, Option, none, some, List, [], ◌∷◌, ◌++◌, ◌==◌, first,
  update_where, if◌then◌else◌,
}
use qing_zhou.Common.Int.{ℤ, pos, negsuc, ◌+ℤ◌}
use qing_zhou.Result.{Result, ok, err, user_not_found, negative_balance, or_fail, ◌>>=◌, ◌>>◌}
use qing_zhou.Store.{User, PointTx, TxType, Db, Tx}

-- SELECT … FROM users WHERE id=?
abbrev pub find_user : ℕ → Db → Option User
find_user user_id db = first (λ (u : User). u.id == user_id) db.users

-- UPDATE users SET … WHERE id=?
abbrev pub update_user : ℕ → (User → User) → Db → Db
update_user user_id f db = record db {
  users = update_where (λ (u : User). u.id == user_id) f db.users;
}

-- UPDATE users SET points=?, updated_at=? WHERE id=?
unfoldable pub set_points : ℕ → ℕ → ℕ → Db → Db
set_points user_id points now db =
    update_user user_id (λ (u : User). record u { points = points; updated_at = now }) db

abbrev pub tx_row : ℕ → ℤ → TxType → ℕ → ℕ → ℕ → ℕ → ℕ → PointTx
tx_row user_id amount type balance ref_id operator_id now id = record {
  id = id;
  user_id = user_id;
  amount = amount;
  type = type;
  balance_after = balance;
  ref_id = ref_id;
  operator_id = operator_id;
  created_at = now;
}

-- INSERT INTO point_transactions
unfoldable pub log_points : ℕ → ℤ → TxType → ℕ → ℕ → ℕ → ℕ → Db → Db
log_points user_id amount type balance ref_id operator_id now db =
    let row = tx_row user_id amount type balance ref_id operator_id now db.next_tx_id in
    record db {
      point_transactions = db.point_transactions ++ row ∷ [];
      next_tx_id = db.next_tx_id + 1;
    }

settle : ℕ → ℤ → String → ℕ → ℕ → Db → ℤ → Result (ℕ × Db)
unfolding set_points log_points
settle user_id amount type operator_id now db (negsuc _) = err negative_balance
settle user_id amount type operator_id now db (pos balance) = ok (
  balance,
  log_points user_id amount (TxType.adjusted type) balance 0 operator_id now
      (set_points user_id balance now db),
)

-- `AdjustPoints`: the new balance
unfoldable pub adjust_points : ℕ → ℤ → String → ℕ → ℕ → Tx ℕ
unfolding settle ◌+ℤ◌
adjust_points user_id amount type operator_id now db = do
  u ← or_fail (find_user user_id db) user_not_found
  settle user_id amount type operator_id now db (pos u.points +ℤ amount)
