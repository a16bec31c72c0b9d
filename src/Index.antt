-- ===== src/Index.antt =====
-- deltabase/src/storage: the B+ tree of an index (index_bplus_tree.cpp), the pages it is kept in
-- (BP_index_pager.cpp), and the order of its keys (types/data_token.cpp).
pub mod Keys
pub mod Pager
pub mod Tree
