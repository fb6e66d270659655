-- ===== src/AutoRenew/Renewal.antt =====
-- internal/store/autorenew.go: one renewal, and a pass over the lines that are due.
use qing_zhou.Common.{
  ℕ, ◌+◌, ◌-◌, ◌≤◌, ◌≡◌, refl, String, Bool, true, false, ◌&&◌, Option, none, some, List, [], ◌∷◌,
  ◌∙◌, ap, sym, subst, arith, inl, inr, ◌⊎◌, ◌==◌, any, last, if◌then◌else◌,
}
use qing_zhou.Result.{Result, Error, ok, err, >>=-eq-ok, ok-injective}
use qing_zhou.Bucket.{Bucket, is_queued}
use qing_zhou.Package.{Package, for_duration}
use qing_zhou.Queue.{in_line}
use qing_zhou.Store.{User, Db}
use qing_zhou.Points.{find_user, set_points}
use qing_zhou.Points.Ledger.{balance, IsBooked, IsBooked-trans}
use qing_zhou.Purchase.{find_package, book, take_stock}
use qing_zhou.Purchase.Charges.{charged-IsBooked, charged-pays}
use qing_zhou.AutoRenew.{
  wants_renewal, renewable, resolved, or_skip, must_wait, renew, renewal_of, auto_renew_line,
  auto_renew_due_plans, settle_line, mark_changed, or_first,
}

-- The line is left as it is.
abbrev IsSkipped : Db → Bool × Db → Type 0
IsSkipped db r = (r.0 ≡ false) × (r.1 ≡ db)

continue : {X Y Z : Type 0} → X ⊎ Y → (Y → X ⊎ Z) → X ⊎ Z
continue (inl x) f = inl x
continue (inr y) f = f y

or_skip-cases :
    {A : Type 0} (o : Option A) (db : Db) (k : A → Result (Bool × Db)) {r : Bool × Db}
    → or_skip o db k ≡ ok r
    → IsSkipped db r ⊎ ((a : A) × (o ≡ some a) × (k a ≡ ok r))
or_skip-cases none db k h =
    inl (let same = sym (ok-injective _ _ h) in (ap (λ x. x.0) same, ap (λ x. x.1) same))
or_skip-cases (some a) db k h = inr (a, refl, h)

if_skip-cases :
    (c : Bool) (db : Db) (k : Result (Bool × Db)) {r : Bool × Db}
    → (if c then ok (false, db) else k) ≡ ok r
    → IsSkipped db r ⊎ ((c ≡ false) × (k ≡ ok r))
if_skip-cases true db k h =
    inl (let same = sym (ok-injective _ _ h) in (ap (λ x. x.0) same, ap (λ x. x.1) same))
if_skip-cases false db k h = inr (refl, h)

-- A renewal: the head that has ended, the package and price of today, and the tables it leaves.
pub record IsRenewal (user_id : ℕ) (key : String) (now : ℕ) (db : Db) (db' : Db) : Type 0 where
  pub head : Bucket
  pub u : User
  pub fresh : Package
  pub pkg : Package
  pub ended : last (wants_renewal user_id key now) db.user_plans ≡ some head
  pub alone : any (λ b. in_line user_id key b && is_queued b.status) db.user_plans ≡ false
  pub found : find_user user_id db ≡ some u
  pub listed : renewable (find_package head.package_id db) ≡ some fresh
  pub chosen : resolved (for_duration fresh head.duration_days) ≡ ok (some pkg)
  pub ready : must_wait user_id u pkg db ≡ false
  pub renewed : renew user_id u pkg now db ≡ ok (true, db')

renew-renews :
    (user_id : ℕ) (u : User) (pkg : Package) (now : ℕ) (db : Db) {r : Bool × Db}
    → renew user_id u pkg now db ≡ ok r
    → r.0 ≡ true
unfolding renew
renew-renews user_id u pkg now db h =
    let paid = set_points user_id (u.points - pkg.price_points) now db in
    let (stocked, taken, h1) =
      >>=-eq-ok (take_stock pkg (book user_id u.username (renewal_of u pkg) now paid)) _ h in
    sym (ap (λ x. x.0) (ok-injective _ _ h1))

auto_renew_line-cases :
    (user_id : ℕ) (key : String) (now : ℕ) (db : Db) (renewed : Bool) (db' : Db)
    → auto_renew_line user_id key now db ≡ ok (renewed, db')
    → IsSkipped db (renewed, db') ⊎ ((renewed ≡ true) × IsRenewal user_id key now db db')
unfolding auto_renew_line
auto_renew_line-cases user_id key now db renewed db' h =
    continue (or_skip-cases (last (wants_renewal user_id key now) db.user_plans) db _ h)
      λ (head, ended, h1).
        continue
          (if_skip-cases (any (λ b. in_line user_id key b && is_queued b.status) db.user_plans) db _
            h1)
          λ (alone, h2). continue (or_skip-cases (find_user user_id db) db _ h2) λ (u, found, h3).
            continue (or_skip-cases (renewable (find_package head.package_id db)) db _ h3)
              λ (fresh, listed, h4).
                let (choice, chosen, h5) =
                  >>=-eq-ok (resolved (for_duration fresh head.duration_days)) _ h4 in
                continue (or_skip-cases choice db _ h5) λ (pkg, picked, h6).
                  continue (if_skip-cases (must_wait user_id u pkg db) db _ h6) λ (ready, h7).
                    let did = renew-renews user_id u pkg now db h7 in
                    inr (
                      did,
                      record {
                        head = head;
                        u = u;
                        fresh = fresh;
                        pkg = pkg;
                        ended = ended;
                        alone = alone;
                        found = found;
                        listed = listed;
                        chosen = chosen ∙ ap ok picked;
                        ready = ready;
                        renewed = h7 ∙ ap (λ r. ok (r, db')) did;
                      },
                    )

-- What a renewal takes from the balances: the price, from the user of the line.
renewal-pays :
    (user_id : ℕ) (key : String) (now : ℕ) (db db' : Db) (r : IsRenewal user_id key now db db')
    → IsBooked db db'
      × ((j : ℕ) → balance j db' + (if j == user_id then r.pkg.price_points else 0) ≡ balance j db)
unfolding renew renewal_of must_wait
renewal-pays user_id key now db db' r =
    let paid = set_points user_id (r.u.points - r.pkg.price_points) now db in
    let (tables, taken, h) =
      >>=-eq-ok (take_stock r.pkg (book user_id r.u.username (renewal_of r.u r.pkg) now paid)) _
        r.renewed in
    let stocked = taken ∙ ap (λ x. ok (x.1)) (ok-injective _ _ h) in
    let funded : r.pkg.price_points ≤ r.u.points = ground (arith, r.ready) in
    (
      charged-IsBooked user_id r.u (renewal_of r.u r.pkg) now db db' r.found refl funded stocked,
      charged-pays user_id r.u (renewal_of r.u r.pkg) now db db' r.found funded stocked,
    )

-- Whatever lines a pass goes through, in whatever order, and whatever fails on the way, every balance
-- has moved by exactly what the ledger booked.
pub auto_renew_due_plans-IsBooked :
    (lines : List (ℕ × String)) (now : ℕ) (changed : List ℕ) (e : Option Error) (db : Db)
    → IsBooked db (auto_renew_due_plans lines now changed e db).0
unfolding auto_renew_due_plans
auto_renew_due_plans-IsBooked [] now changed e db = λ j. refl
auto_renew_due_plans-IsBooked ((user_id, key) ∷ lines) now changed e db =
    let (db', renewed, failed) = settle_line db (auto_renew_line user_id key now db) in
    let rest =
      auto_renew_due_plans lines now (mark_changed renewed user_id changed) (or_first e failed)
        db' in
    IsBooked-trans db db' (rest.0) (one (auto_renew_line user_id key now db) refl) (
      auto_renew_due_plans-IsBooked lines now (mark_changed renewed user_id changed)
        (or_first e failed) db')
  where
    one :
        (outcome : Result (Bool × Db))
        → auto_renew_line user_id key now db ≡ outcome
        → IsBooked db (settle_line db outcome).0
    one (err f) h = λ j. refl
    one (ok (renewed, db')) h = elim (auto_renew_line-cases user_id key now db renewed db' h) [
      | inl (r, same) ↦ subst (IsBooked db) (sym same) (λ j. refl)
      | inr (done, r) ↦ (renewal-pays user_id key now db db' r).0
    ]
