-- ===== src/Lines.antt =====
-- internal/store/packages.go and periods.go: the names of renewal lines, when each line ends, and
-- `recomputeUserAggregate` of userplans.go, which mirrors a user's rows on the `users` row.
use Prim.Native.Char.{Char, code}
use Prim.Native.String.{◌++◌ as text_append}
use qing_zhou.Common.{
  ℕ, ◌+◌, ◌*◌, String, Bool, true, false, not, ◌&&◌, ◌||◌, List, [], ◌∷◌, map, ltb, leb, ◌==◌,
  str_eq, select, sum_by, update_where, if◌then◌else◌,
}
use qing_zhou.Common.Decimal.{format_int}
use qing_zhou.Common.Int.{ℤ, pos, negsuc, ltb_ℤ}
use qing_zhou.Bucket.{Bucket, is_plan, is_free, is_active, is_queued, is_retired, day, not_expired}
use qing_zhou.Store.{User, Db}

-- `unicode.IsSpace`, which `strings.TrimSpace` trims by
is_space : Char → Bool
is_space c =
    let n = code c in
    (leb 9 n && leb n 13)
    || (n == 32
        || (n == 0x85
            || (n == 0xa0
                || (n == 0x1680
                    || ((leb 0x2000 n && leb n 0x200a)
                        || (n == 0x2028
                            || (n == 0x2029 || (n == 0x202f || (n == 0x205f || n == 0x3000)))))))))

trim_left : String → String
trim_left String.[] = ""
trim_left (String.◌∷◌ c s) = if is_space c then trim_left s else String.◌∷◌ c s

trim_right : String → String
trim_right String.[] = ""
trim_right (String.◌∷◌ c s) =
    let rest = trim_right s in if str_eq rest "" && is_space c then "" else String.◌∷◌ c rest

-- `strings.TrimSpace`
unfoldable pub trim_space : String → String
unfolding is_space trim_left trim_right
trim_space s = trim_right (trim_left s)

-- `effectiveQueueKey`
unfoldable pub effective_queue_key : ℕ → String → String
unfolding trim_space format_int
effective_queue_key package_id key =
    let trimmed = trim_space key in
    if not (str_eq trimmed "") then trimmed else text_append "pkg:" (format_int package_id)

-- `lineKey`
unfoldable pub line_key : Bucket → String
unfolding format_int
line_key b =
    if not (str_eq b.queue_key "")
    then b.queue_key
    else text_append "pkg:" (format_int b.package_id)

-- `LineEnd`
pub record LineEnd : Type 0 where
  pub queue_key : String
  pub end_at : ℕ
  pub never : Bool
  pub queued : ℕ
  pub current : ℕ

-- SELECT DISTINCT, and the keys of a Go map
abbrev pub contains_key : String → List String → Bool
contains_key k [] = false
contains_key k (j ∷ ks) = str_eq j k || contains_key k ks

unfoldable pub distinct : List String → List String
distinct [] = []
distinct (k ∷ ks) = let rest = distinct ks in if contains_key k rest then rest else k ∷ rest

-- the rows that give a line its entry in the map of `LineEnds`
unfoldable pub has_line : Bucket → Bool
has_line b = is_plan b.kind && (ltb 0 b.package_id && not (is_retired b.status))

head_of : ℤ → LineEnd → LineEnd
head_of (pos e) l =
    if e == 0
    then record l { never = true }
    else if ltb l.current e
    then record l { current = e }
    else l
head_of (negsuc _) l = l

-- the first loop of `LineEnds`, on the rows of one line
heads : ℕ → String → List Bucket → LineEnd → LineEnd
unfolding has_line line_key head_of not_expired
heads now k [] l = l
heads now k (b ∷ bs) l = heads now k bs (
    if has_line b && (str_eq (line_key b) k && (is_active b.status && not_expired now b))
    then head_of b.expiry_at l
    else l)

-- the second loop of `LineEnds`, whose cursor starts where the head ends
queue_end : String → List Bucket → LineEnd × ℕ → LineEnd × ℕ
unfolding line_key
queue_end k [] a = a
queue_end k (b ∷ bs) (l, cursor) = queue_end k bs (
    if is_plan b.kind && (is_queued b.status && str_eq (line_key b) k)
    then (
      record l { queued = l.queued + 1; never = if b.duration_days == 0 then true else l.never },
      cursor + b.duration_days * day,
    )
    else (l, cursor))

close_line : LineEnd × ℕ → LineEnd
close_line (l, cursor) =
    if ltb 0 l.current || ltb 0 l.queued then record l { end_at = cursor } else l

unfoldable pub line_end : ℕ → List Bucket → String → LineEnd
unfolding heads queue_end close_line
line_end now bs k =
    let l =
      heads now k bs
        (record { queue_key = k; end_at = 0; never = false; queued = 0; current = 0 }) in
    close_line (queue_end k bs (l, if l.current == 0 then now else l.current))

-- `LineEnds`: one entry for each key of its map
unfoldable pub line_ends : List Bucket → ℕ → List LineEnd
unfolding line_end has_line line_key distinct
line_ends bs now = map (line_end now bs) (distinct (map line_key (select has_line bs)))

latest : List LineEnd → ℕ × Bool × ℕ → ℕ × Bool × ℕ
latest [] a = a
latest (e ∷ es) (end, never, queued) =
    latest es (if ltb end e.end_at then e.end_at else end, e.never || never, queued + e.queued)

grant_end : ℤ → ℕ → ℕ
grant_end (pos e) end = if ltb end e then e else end
grant_end (negsuc _) end = end

-- the second loop of `FinalExpiry`: grants of an administrator, which are no lines
grants : ℕ → List Bucket → ℕ → ℕ
unfolding grant_end not_expired
grants now [] end = end
grants now (b ∷ bs) end = grants now bs (
    if is_plan b.kind
      && (b.package_id == 0 && (is_active b.status && (ltb 0 b.traffic_limit && not_expired now b)))
    then grant_end b.expiry_at end
    else end)

-- `FinalExpiry`: the end, whether some line never ends, and how many rows are queued
unfoldable pub final_expiry : List Bucket → ℕ → ℕ × Bool × ℕ
unfolding line_ends latest grants
final_expiry bs now =
    let (end, never, queued) = latest (line_ends bs now) (0, false, 0) in
    (grants now bs end, never, queued)

-- COALESCE(MAX(f), 0), for an f that may be negative
abbrev max_ℤ : List ℤ → ℤ
max_ℤ [] = pos 0
max_ℤ (x ∷ []) = x
max_ℤ (x ∷ y ∷ ys) = let m = max_ℤ (y ∷ ys) in if ltb_ℤ x m then m else x

-- the rows that `recomputeUserAggregate` adds up
abbrev pub counts : Bucket → Bool
counts b = not (is_free b.kind) && ltb 0 b.traffic_limit

abbrev pub counted : (Bucket → ℕ) → Bucket → ℕ
counted f b = if counts b then f b else 0

unfoldable pub aggregate_expiry : List Bucket → ℕ → ℤ
unfolding final_expiry
aggregate_expiry mine now =
    let latest_row = max_ℤ (
      map (λ (b : Bucket). if is_plan b.kind && ltb 0 b.traffic_limit then b.expiry_at else pos 0)
        mine) in
    let final = (final_expiry mine now).0 in
    if ltb_ℤ latest_row (pos final) then pos final else latest_row

-- `recomputeUserAggregate`
unfoldable pub recompute_user_aggregate : ℕ → ℕ → Db → Db
unfolding aggregate_expiry
recompute_user_aggregate user_id now db =
    let mine = select (λ (b : Bucket). b.user_id == user_id) db.user_plans in
    record db {
      users =
          update_where (λ (u : User). u.id == user_id)
            (λ (u : User). record u {
              traffic_limit = sum_by (counted (λ b. b.traffic_limit)) mine;
              used_up = sum_by (counted (λ b. b.used_up)) mine;
              used_down = sum_by (counted (λ b. b.used_down)) mine;
              expiry_at = aggregate_expiry mine now;
              updated_at = now;
            })
            db.users;
    }
