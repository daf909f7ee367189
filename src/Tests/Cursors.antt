-- ===== src/Tests/Cursors.antt =====
-- A codec that writes numbers as strokes, and rows to page through.
use Prim.Native.Char.{code}
use task_management.Base.{
  ℕ, zero, suc, String, Bool, true, false, Option, none, some, List, [], ◌∷◌, ◌≡◌, refl, ap, arith,
  ◌==◌, ◌<◌, if◌then◌else◌, str_eq, eq_iff, Bool-cases, inl, inr,
}
use task_management.Domain.Task.{Task}
use task_management.Domain.Listing.{pos, TaskListQuery, TaskCursor, Codec, end_of_time, Sort, Order}
use task_management.Tests.Sample.{ticket}

strokes : ℕ → String → String
strokes zero s = String.◌∷◌ "." s
strokes (suc n) s = String.◌∷◌ "|" (strokes n s)

abbrev longer : Option (ℕ × String) → Option (ℕ × String)
longer none = none
longer (some (n, s)) = some (suc n, s)

read_strokes : String → Option (ℕ × String)
read_strokes String.[] = none
read_strokes (String.◌∷◌ c s) =
    let rest = read_strokes s in if code c == b'|' then longer rest else some (0, s)

read-strokes : (n : ℕ) (s : String) → read_strokes (strokes n s) ≡ some (n, s)
unfolding read_strokes strokes
read-strokes zero s = refl
read-strokes (suc n) s = ap longer (read-strokes n s)

sort_number : Sort → ℕ
sort_number Sort.unset = 0
sort_number Sort.created_at = 1
sort_number Sort.updated_at = 2
sort_number Sort.due_at = 3
sort_number Sort.priority = 4

sort_of : ℕ → Sort
sort_of zero = Sort.unset
sort_of (suc zero) = Sort.created_at
sort_of (suc (suc zero)) = Sort.updated_at
sort_of (suc (suc (suc zero))) = Sort.due_at
sort_of (suc (suc (suc (suc n)))) = Sort.priority

order_number : Order → ℕ
order_number Order.unset = 0
order_number Order.asc = 1
order_number Order.desc = 2

order_of : ℕ → Order
order_of zero = Order.unset
order_of (suc zero) = Order.asc
order_of (suc (suc n)) = Order.desc

sort_of-number : (s : Sort) → sort_of (sort_number s) ≡ s
unfolding sort_of sort_number
sort_of-number Sort.unset = refl
sort_of-number Sort.created_at = refl
sort_of-number Sort.updated_at = refl
sort_of-number Sort.due_at = refl
sort_of-number Sort.priority = refl

order_of-number : (o : Order) → order_of (order_number o) ≡ o
unfolding order_of order_number
order_of-number Order.unset = refl
order_of-number Order.asc = refl
order_of-number Order.desc = refl

pub encode : TaskCursor → String
unfolding strokes sort_number order_number
encode c =
    strokes (sort_number c.sort) (strokes (order_number c.order) (strokes c.time (strokes c.id "")))

abbrev read_id : ℕ → ℕ → ℕ → Option (ℕ × String) → Option TaskCursor
read_id s o t none = none
read_id s o t (some (i, rest)) =
    some (record { sort = sort_of s; order = order_of o; time = t; id = i })

abbrev read_time : ℕ → ℕ → Option (ℕ × String) → Option TaskCursor
read_time s o none = none
read_time s o (some (t, rest)) = read_id s o t (read_strokes rest)

abbrev read_order : ℕ → Option (ℕ × String) → Option TaskCursor
read_order s none = none
read_order s (some (o, rest)) = read_time s o (read_strokes rest)

abbrev read_sort : Option (ℕ × String) → Option TaskCursor
read_sort none = none
read_sort (some (s, rest)) = read_order s (read_strokes rest)

pub decode : String → Option TaskCursor
unfolding read_strokes
decode text = read_sort (read_strokes text)

decode_all : (c : TaskCursor) → decode (encode c) ≡ some c
unfolding decode encode
decode_all c =
    rw
      (
        read-strokes (sort_number c.sort)
            (strokes (order_number c.order) (strokes c.time (strokes c.id ""))),
        read-strokes (order_number c.order) (strokes c.time (strokes c.id "")),
        read-strokes c.time (strokes c.id ""),
        read-strokes c.id "",
        sort_of-number c.sort,
        order_of-number c.order,
      )
      refl

is_blank_text : String → Bool
is_blank_text String.[] = true
is_blank_text (String.◌∷◌ c s) = false

written : (n : ℕ) (s : String) → is_blank_text (strokes n s) ≡ false
unfolding strokes is_blank_text
written zero s = refl
written (suc n) s = refl

unequal : (s : String) → is_blank_text s ≡ false → str_eq s "" ≡ false
unfolding is_blank_text
unequal s h = elim (Bool-cases (str_eq s "")) [
  | inl e ↦ clash (is_blank_text s) (ap is_blank_text ((eq_iff s "").0 e)) h
  | inr e ↦ e
]
  where
    clash : (b : Bool) → b ≡ true → b ≡ false → str_eq s "" ≡ false
    clash b p q = absurd (ground arith)

not_empty : (n : ℕ) (s : String) → str_eq (strokes n s) "" ≡ false
not_empty n s = unequal (strokes n s) (written n s)

pub decode-encode : (c : TaskCursor) → c.time < end_of_time → decode (encode c) ≡ some c
decode-encode c h = decode_all c

pub encode_not_empty : (c : TaskCursor) → str_eq (encode c) "" ≡ false
unfolding encode
encode_not_empty c = not_empty (sort_number c.sort) _

abbrev pub strokes_codec : Codec
strokes_codec = record {
  encode = encode;
  decode = decode;
  decode-encode = decode-encode;
  encode_not_empty = encode_not_empty;
}

abbrev pub dated : ℕ → ℕ → Task
dated id time = record ticket { id = id; created_at = time; updated_at = time }

abbrev pub rows : List Task
rows = dated 1 10 ∷ dated 2 30 ∷ dated 3 20 ∷ dated 4 30 ∷ dated 5 40 ∷ []

abbrev pub by_two : TaskListQuery
by_two = record {
  team_id = 7;
  status = none;
  assignee_id = 0;
  priority = none;
  overdue = false;
  search = "";
  sort = Sort.unset;
  order = Order.asc;
  limit = pos 2;
  offset = pos 0;
  cursor = "";
}
