-- ===== src/Report/Urls.antt =====
-- internal/bytecode/required_capabilities.go: the URL that the scan finds in front of a request.
use howlframe.Opcode.{http_request, load_const, Opcode}
use howlframe.Program.{Value}
use howlframe.Common.{
  Option-cases, ap, ◌==◌, leb, ◌-◌, ℤ, negsuc, Bool-cases, ◌≢◌, ◌+◌, get_elem?, inr, inl, pos, ◌&&◌,
  arith, ℕ, List, Option, String, false, true, none, some, ◌≡◌, refl,
}
use howlframe.Program.{Instruction}
use howlframe.Report.{
  has_body, loaded_string, string_value, url_offset, is_load_const, constant_url, grant_for,
}
use howlframe.Report.Needs.{HasUrl, without_body, with_body, IsLoadedAt, IsRequest, IsBodiless}

-- The URL that the scan finds.
loaded_string-IsLoadedAt :
    (code : List Instruction) (k : ℕ) (url : String)
    → IsLoadedAt code k url
    → loaded_string (get_elem? code k) (get_elem? code (k + 1)) ≡ some url
unfolding is_load_const
loaded_string-IsLoadedAt code k url l =
    rw (l.first_eq, l.second_eq, l.first_loads, l.second_loads, l.url_eq) refl

url_offset-IsBodiless :
    (inst : Instruction) → IsBodiless inst → url_offset inst.op inst.int_operand ≡ 2
unfolding url_offset
url_offset-IsBodiless inst (inl e) = rw e refl
url_offset-IsBodiless inst (inr (e, other)) = rw e (offset inst.int_operand other)
  where
    offset : (n : ℤ) → n ≢ pos 1 → url_offset http_request n ≡ 2
    offset (negsuc n) h = refl
    offset (pos n) h = elim (Bool-cases (n == 1)) [
      | inl e ↦ absurd (h (ap pos (ground (arith, e))))
      | inr e ↦ rw (url_offset, e) refl
    ]

constant_url-HasUrl :
    (code : List Instruction) (i : ℕ) (inst : Instruction) (url : String)
    → HasUrl code i inst url
    → constant_url code i inst ≡ some url
unfolding constant_url url_offset
constant_url-HasUrl code i inst url (without_body k b e l) =
    let offset = url_offset-IsBodiless inst b in
    let place : i - 2 ≡ k = omega (arith, e) in
    let room : leb 2 i ≡ true = ground (arith, e) in
    rw (offset, room, place) (loaded_string-IsLoadedAt code k url l)
constant_url-HasUrl code i inst url (with_body k o n e l) =
    let place : i - 3 ≡ k = omega (arith, e) in
    let room : leb 3 i ≡ true = ground (arith, e) in
    let body : has_body inst.op inst.int_operand ≡ true = rw (o, n) refl in
    rw (url_offset, body, room, place) (loaded_string-IsLoadedAt code k url l)

is_load_const-eq : (op : Opcode) → is_load_const op ≡ true → op ≡ load_const
unfolding is_load_const
is_load_const-eq Opcode.load_const h = refl
is_load_const-eq _ h = cc

string_value-eq : (v : Value) (url : String) → string_value v ≡ some url → v ≡ Value.string url
string_value-eq (Value.string t) url h = cc h
string_value-eq _ url h = cc

IsLoadedAt-loaded_string :
    (code : List Instruction) (k : ℕ) (url : String)
    → loaded_string (get_elem? code k) (get_elem? code (k + 1)) ≡ some url
    → IsLoadedAt code k url
IsLoadedAt-loaded_string code k url h = from (get_elem? code k) (get_elem? code (k + 1)) refl refl h
  where
    from :
        (a b : Option Instruction)
        → get_elem? code k ≡ a
        → get_elem? code (k + 1) ≡ b
        → loaded_string a b ≡ some url
        → IsLoadedAt code k url
    from none b p q h = cc
    from (some x) none p q h = cc
    from (some x) (some y) p q h = elim (Bool-cases (is_load_const x.op && is_load_const y.op)) [
      | inr e ↦ cc (rw e at h)
      | inl e ↦
          let value : string_value x.value_operand ≡ some url = rw e at h in
          record {
            first = x;
            second = y;
            first_eq = p;
            second_eq = q;
            first_loads = is_load_const-eq x.op (ground (arith, e));
            second_loads = is_load_const-eq y.op (ground (arith, e));
            url_eq = string_value-eq x.value_operand url value;
          }
    ]

has_body-eq : (op : Opcode) (n : ℤ) → has_body op n ≡ true → (op ≡ http_request) × (n ≡ pos 1)
has_body-eq Opcode.http_request (pos n) h = (refl, ap pos (ground (arith, h)))
has_body-eq Opcode.http_request (negsuc n) h = cc
has_body-eq _ n h = cc

has_body-not :
    (inst : Instruction)
    → IsRequest inst.op
    → has_body inst.op inst.int_operand ≡ false
    → IsBodiless inst
has_body-not inst (inl e) h = inl e
has_body-not inst (inr e) h = inr (e, λ n. cc (rw (e, n) at h))

HasUrl-constant_url :
    (code : List Instruction) (i : ℕ) (inst : Instruction) (url : String)
    → IsRequest inst.op
    → constant_url code i inst ≡ some url
    → HasUrl code i inst url
unfolding constant_url url_offset
HasUrl-constant_url code i inst url q h = elim (Bool-cases (has_body inst.op inst.int_operand)) [
  | inl b ↦
      let (o, n) = has_body-eq inst.op inst.int_operand b in
      elim (Bool-cases (leb 3 i)) [
        | inl room ↦
            with_body (i - 3) o n (ground (arith, room))
              (IsLoadedAt-loaded_string code (i - 3) url (rw (b, room) at h))
        | inr none_left ↦ cc (rw (b, none_left) at h)
      ]
  | inr b ↦ elim (Bool-cases (leb 2 i)) [
    | inl room ↦
        without_body (i - 2) (has_body-not inst q b) (ground (arith, room))
          (IsLoadedAt-loaded_string code (i - 2) url (rw (b, room) at h))
    | inr none_left ↦ cc (rw (b, none_left) at h)
  ]
]

-- The grant that the scan finds for a request.
pub grant_for-HasUrl :
    (fetch_grant : String → Option String) (code : List Instruction) (i : ℕ) (inst : Instruction)
    (url grant : String)
    → HasUrl code i inst url
    → fetch_grant url ≡ some grant
    → grant_for fetch_grant (constant_url code i inst) ≡ some grant
grant_for-HasUrl fetch_grant code i inst url grant h e =
    rw (constant_url-HasUrl code i inst url h) e

pub grant_for-computed :
    (fetch_grant : String → Option String) (code : List Instruction) (i : ℕ) (inst : Instruction)
    → IsRequest inst.op
    → ((url grant : String) → HasUrl code i inst url → fetch_grant url ≢ some grant)
    → grant_for fetch_grant (constant_url code i inst) ≡ none
grant_for-computed fetch_grant code i inst q h = elim (Option-cases (constant_url code i inst)) [
  | inl n ↦ rw n refl
  | inr (url, e) ↦ elim (Option-cases (fetch_grant url)) [
    | inl n ↦ rw e n
    | inr (grant, g) ↦ absurd (h url grant (HasUrl-constant_url code i inst url q e) g)
  ]
]

pub IsRequest-HasUrl :
    (code : List Instruction) (i : ℕ) (inst : Instruction) (url : String)
    → HasUrl code i inst url
    → IsRequest inst.op
IsRequest-HasUrl code i inst url (without_body k (inl e) p l) = inl e
IsRequest-HasUrl code i inst url (without_body k (inr (e, n)) p l) = inr e
IsRequest-HasUrl code i inst url (with_body k o n p l) = inr o
