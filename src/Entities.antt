-- ===== src/Entities.antt =====
-- The entities of the program: cards, seats, actions, hands, games, players and sites.
pub mod Card
pub mod Seat
pub mod Action
pub mod Hand
pub mod Game
pub mod Player
pub mod Site
