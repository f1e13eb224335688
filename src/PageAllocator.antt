-- ===== src/PageAllocator.antt =====
-- common/memory_allocator.h: `PageAllocator`, which hands out memory from pages that it maps, and
-- never takes any back. `word` is the number of bits of a `size_t`, `header` is `sizeof(PageHeader)`.
-- Addresses are numbers; `mmap` is what the kernel answers to a request for that many bytes.
pub mod Blocks
pub mod Serve
pub mod Fetch
pub mod Alloc
pub mod Owned
mod Runs
use native_crash2java.Base.{
  ℕ, ◌+◌, ◌-◌, ◌*◌, ◌/◌, ◌%◌, ◌^◌, Bool, true, false, ◌&&◌, ltb, leb, ◌==◌, List, [], ◌∷◌, Option,
  none, some, if◌then◌else◌,
}

-- A `PageHeader` with its address: a set of pages that `GetNPages` mapped.
pub record PageHeader : Type 0 where
  pub address : ℕ
  pub num_pages : ℕ

-- `last` is the list that `last_` heads.
pub record PageAllocator : Type 0 where
  pub page_size : ℕ
  pub last : List PageHeader
  pub current_page : Option ℕ
  pub page_offset : ℕ
  pub pages_allocated : ℕ

unfoldable pub page_allocator : ℕ → PageAllocator
page_allocator page_size = record {
  page_size = page_size;
  last = [];
  current_page = none;
  page_offset = 0;
  pages_allocated = 0;
}

module _ (word header : ℕ) where
  abbrev pub size_sub : ℕ → ℕ → ℕ
  size_sub a b = (a + 2 ^ word - b) % 2 ^ word

  -- The number of pages that `Alloc` asks for, and `page_offset_` behind the block on the last one.
  unfoldable pub pages_for : ℕ → ℕ → ℕ
  pages_for page_size bytes = ((bytes + header + page_size - 1) % 2 ^ word) / page_size

  unfoldable pub offset_behind : ℕ → ℕ → ℕ → ℕ
  offset_behind page_size pages bytes =
      size_sub page_size (size_sub ((page_size * pages) % 2 ^ word) ((bytes + header) % 2 ^ word))
      % page_size

  -- `GetNPages` behind the call of `mmap`.
  abbrev pub add_pages : ℕ → PageAllocator → Option ℕ → Option ℕ × PageAllocator
  add_pages num_pages a none = (none, a)
  add_pages num_pages a (some address) = (
    some address,
    record a {
      last = record { address = address; num_pages = num_pages } ∷ a.last;
      pages_allocated = (a.pages_allocated + num_pages) % 2 ^ word;
    },
  )

  module _ (mmap : ℕ → Option ℕ) where
    unfoldable pub get_n_pages : ℕ → PageAllocator → Option ℕ × PageAllocator
    get_n_pages num_pages a = add_pages num_pages a (mmap ((a.page_size * num_pages) % 2 ^ word))

    -- `Alloc` on the rest of the current page.
    unfoldable pub serve : ℕ → ℕ → PageAllocator → Option ℕ × PageAllocator
    serve bytes current a =
        let offset = a.page_offset + bytes in
        (
          some (current + a.page_offset),
          (if offset == a.page_size
              then record a { page_offset = 0; current_page = none }
              else record a { page_offset = offset }),
        )

    -- `Alloc` on new pages.
    abbrev pub placed : ℕ → ℕ → Option ℕ × PageAllocator → Option ℕ × PageAllocator
    placed pages offset (none, a) = (none, a)
    placed pages offset (some ret, a) = (
      some (ret + header),
      record a {
        page_offset = offset;
        current_page = if offset == 0 then none else some (ret + a.page_size * (pages - 1));
      },
    )

    unfoldable pub fetch : ℕ → PageAllocator → Option ℕ × PageAllocator
    unfolding get_n_pages
    fetch bytes a =
        let pages = pages_for a.page_size bytes in
        placed pages (offset_behind a.page_size pages bytes) (get_n_pages pages a)

    -- `Alloc` with this current page.
    abbrev pub alloc_on : ℕ → PageAllocator → Option ℕ → Option ℕ × PageAllocator
    alloc_on bytes a none = fetch bytes a
    alloc_on bytes a (some current) =
        if leb bytes (size_sub a.page_size a.page_offset)
        then serve bytes current a
        else fetch bytes a

    unfoldable pub alloc : ℕ → PageAllocator → Option ℕ × PageAllocator
    unfolding serve fetch
    alloc bytes a = if bytes == 0 then (none, a) else alloc_on bytes a a.current_page

-- `OwnsPointer`
unfoldable pub owns : ℕ → List PageHeader → ℕ → Bool
owns page_size [] p = false
owns page_size (h ∷ last) p =
    if leb h.address p && ltb p (h.address + h.num_pages * page_size)
    then true
    else owns page_size last p

unfoldable pub owns_pointer : PageAllocator → ℕ → Bool
unfolding owns
owns_pointer a p = owns a.page_size a.last p

-- `FreeAll`: the calls of `munmap`, in order.
unfoldable pub free_all : PageAllocator → List (ℕ × ℕ)
free_all a = free_from a.page_size a.last
  where
    free_from : ℕ → List PageHeader → List (ℕ × ℕ)
    free_from page_size [] = []
    free_from page_size (h ∷ last) = (h.address, h.num_pages * page_size) ∷ free_from page_size last
