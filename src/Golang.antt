-- ===== src/Golang.antt =====
-- What the program uses of Go and of its standard library: error values, maps, `sort.Sort`,
-- `net.ParseMAC`, and the packages `path` and `path/filepath`.
pub mod Errors
pub mod Dict
pub mod Sort
pub mod Mac
pub mod FilePath
pub mod FileSystem
pub mod Http
