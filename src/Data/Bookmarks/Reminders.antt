-- ===== src/Data/Bookmarks/Reminders.antt =====
-- internal/data/bookmarks.go: FindDeadlineReminderRecipients. Africa/Lagos is one hour ahead of UTC all
-- year, and its entry in the time zone database is taken to be there.
use gradconnect_api.Common.{
  ℕ, ◌+◌, ◌/◌, ◌%◌, String, Bool, false, ◌&&◌, ◌||◌, not, List, [], ◌∷◌, ◌++◌, some, none, Option,
  ◌==◌, eqb, select, if◌then◌else◌,
}
use gradconnect_api.Store.{ok, Env, Sql, Exec, query}
use gradconnect_api.Store.Rows.{AppUser, DeadlineReminderBookmark}
use gradconnect_api.Data.Listing.{order_by, text_ltb}
use gradconnect_api.Data.Bookmarks.{Bookmark, join_all, day}

abbrev pub hour : ℕ
hour = 3600000000000

-- `time.Now().In(lagos)`: its date and its hour
abbrev pub lagos_date : ℕ → ℕ
lagos_date now = (now + hour) / day

abbrev pub lagos_hour : ℕ → ℕ
lagos_hour now = (now + hour) / hour % 24

pub record DeadlineReminderRecipient : Type 0 where
  pub user_id : String
  pub email : String
  pub first_name : String
  pub bookmarks : List DeadlineReminderBookmark

-- A row of the query: the user, and their bookmark with its opportunity and employer.
pub record ReminderRow : Type 0 where
  pub user : AppUser
  pub bookmark : Bookmark

abbrev pub is_on : ℕ → Option ℕ → Bool
is_on date none = false
is_on date (some d) = eqb d date

-- The WHERE, of the opportunity and of the user. It does not look at deleted_at.
abbrev pub is_pressing : ℕ → Bookmark → Bool
is_pressing date b = is_on date b.stub.opportunity.deadline && b.stub.opportunity.is_active

abbrev pub is_reachable : AppUser → Bool
is_reachable u = u.user.email_verified && u.email_status == "active"

-- `INNER JOIN app_user u ON u.id = b.user_id`, of one bookmark
unfoldable pub join_users : Bookmark → List AppUser → List ReminderRow
join_users b [] = []
join_users b (u ∷ us) =
    let rest = join_users b us in
    if u.user.id == b.row.user_id && is_reachable u
    then record { user = u; bookmark = b } ∷ rest
    else rest

unfoldable pub reminder_rows : List AppUser → List Bookmark → List ReminderRow
unfolding join_users
reminder_rows users [] = []
reminder_rows users (b ∷ bs) = join_users b users ++ reminder_rows users bs

abbrev pub reminder_of : ℕ → ReminderRow → DeadlineReminderBookmark
reminder_of days_ahead r = record {
  title = r.bookmark.stub.opportunity.title;
  employer_name = r.bookmark.stub.employer.name;
  opportunity_slug = r.bookmark.stub.opportunity.slug;
  deadline = r.bookmark.stub.opportunity.deadline;
  days_remaining = days_ahead;
}

abbrev pub new_recipient : ℕ → ReminderRow → DeadlineReminderRecipient
new_recipient days_ahead r = record {
  user_id = r.user.user.id;
  email = r.user.user.email;
  first_name = r.user.user.first_name;
  bookmarks = reminder_of days_ahead r ∷ [];
}

-- The row goes in front of the bookmarks of the recipient that the next row begins, if that is the
-- same user; else it begins a recipient of its own.
abbrev pub put_row :
    ℕ → ReminderRow → List DeadlineReminderRecipient → List DeadlineReminderRecipient
put_row days_ahead r [] = new_recipient days_ahead r ∷ []
put_row days_ahead r (c ∷ cs) =
    if c.user_id == r.user.user.id
    then record (new_recipient days_ahead r) { bookmarks = reminder_of days_ahead r ∷ c.bookmarks }
      ∷ cs
    else new_recipient days_ahead r ∷ c ∷ cs

-- The loop over the rows, which come by user.
unfoldable pub group_rows : ℕ → List ReminderRow → List DeadlineReminderRecipient
group_rows days_ahead [] = []
group_rows days_ahead (r ∷ rs) = put_row days_ahead r (group_rows days_ahead rs)

module _ ⦃env : Env⦄ where
  -- `ORDER BY u.id, o.deadline, o.title`; the deadlines are the same.
  unfoldable pub reminder_before : ReminderRow → ReminderRow → Bool
  unfolding text_ltb
  reminder_before r s =
      text_ltb r.user.user.id s.user.user.id
      || (r.user.user.id == s.user.user.id
          && not (
              env.collates_before s.bookmark.stub.opportunity.title
                r.bookmark.stub.opportunity.title))

  unfoldable pub find_recipients_sql : ℕ → Sql (List DeadlineReminderRecipient)
  unfolding select join_all reminder_rows order_by reminder_before group_rows
  find_recipients_sql days_ahead now n db =
      let date = lagos_date now + days_ahead in
      let pressing =
        select (is_pressing date) (join_all now db.employer db.opportunity db.bookmark) in
      (
        ok (group_rows days_ahead (order_by reminder_before (reminder_rows db.app_user pressing))),
        db,
      )

  -- `FindDeadlineReminderRecipients`
  unfoldable pub find_deadline_reminder_recipients : ℕ → Exec (List DeadlineReminderRecipient)
  unfolding find_recipients_sql query
  find_deadline_reminder_recipients days_ahead = query (find_recipients_sql days_ahead)
