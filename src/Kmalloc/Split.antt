-- ===== src/Kmalloc/Split.antt =====
-- What `kmalloc` (kernel/mm/kmalloc.c) does to a block that is larger than the request.
